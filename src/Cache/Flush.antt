-- ===== src/Cache/Flush.antt =====
-- What `cache_flush` writes of the blocks that `cache_setblock` stored.
use mathlib.Core.Path.{subst}
use osz.Base.{
  ℕ, zero, suc, ◌+◌, ◌*◌, ◌/◌, ◌%◌, ◌^◌, bit_or, ◌<◌, ◌≤◌, ◌≡◌, refl, sym, ap, ◌≢◌, ◌⊎◌, inl, inr,
  Bool, true, false, Bool-cases, some, ◌==◌, if◌then◌else◌, arith,
}
use osz.Cache.{Block, Cache, cache_prio, tag, flush_chain, flush_lines, flush_prios, cache_flush}

-- The priority that a block gets: none of 1 to 4.
tag_prio :
    (fd prio : ℕ)
    → fd < 2 ^ 60
    → prio ≤ 4
    → (cache_prio (tag fd prio) ≡ 0) ⊎ (4 < cache_prio (tag fd prio))
unfolding tag
tag_prio fd prio h l = let z : fd / 2 ^ 60 ≡ 0 = omega arith in go prio l z
  where
    go :
        (prio : ℕ)
        → prio ≤ 4
        → fd / 2 ^ 60 ≡ 0
        → (cache_prio (tag fd prio) ≡ 0) ⊎ (4 < cache_prio (tag fd prio))
    go zero l z =
        inl (subst (λ q. (bit_or q 0 * 2 ^ 60 + fd % 2 ^ 60) / 2 ^ 60 ≡ 0) (sym z) (omega arith))
    go (suc zero) l z =
        inr (subst (λ q. 4 < (bit_or q 15 * 2 ^ 60 + fd % 2 ^ 60) / 2 ^ 60) (sym z) (omega arith))
    go (suc (suc zero)) l z =
        inr (subst (λ q. 4 < (bit_or q 14 * 2 ^ 60 + fd % 2 ^ 60) / 2 ^ 60) (sym z) (omega arith))
    go (suc (suc (suc zero))) l z =
        inr (subst (λ q. 4 < (bit_or q 13 * 2 ^ 60 + fd % 2 ^ 60) / 2 ^ 60) (sym z) (omega arith))
    go (suc (suc (suc (suc zero)))) l z =
        inr (subst (λ q. 4 < (bit_or q 12 * 2 ^ 60 + fd % 2 ^ 60) / 2 ^ 60) (sym z) (omega arith))
    go (suc (suc (suc (suc (suc k))))) l z = absurd (omega arith)

-- Whether a chain ends within `n` blocks.
unfoldable pub ends : (n : ℕ) → (ℕ → Block) → ℕ → Bool
ends zero bs c = false
ends (suc n) bs c = let rest = ends n bs (bs c).next in if c == 0 then true else rest

-- Every chain ends, and every block has a tag that `cache_setblock` gave.
pub record IsStored (n : ℕ) (s : Cache) : Type 0 where
  pub end : (i : ℕ) → i < s.cachelines → ends n s.blocks (s.cache i) ≡ true
  pub stored :
      (c : ℕ)
      → (fd : ℕ) × ((prio : ℕ) × (((s.blocks c).fd ≡ tag fd prio) × (fd < 2 ^ 60) × (prio ≤ 4)))

flush_chain_lem :
    (m n p c : ℕ) (s : Cache)
    → IsStored m s
    → 1 ≤ p
    → p ≤ 4
    → ends n s.blocks c ≡ true
    → flush_chain n p c s ≡ some s
unfolding flush_chain ends
flush_chain_lem m zero p c s v l u e = ground arith
flush_chain_lem m (suc n) p c s v l u e =
    let (fd, (prio, (t, h, q))) = v.stored c in
    let rest : (c ≢ 0) → flush_chain n p (s.blocks c).next s ≡ some s =
      λ w. flush_chain_lem m n p (s.blocks c).next s v l u (ground arith) in
    elim (Bool-cases (c == 0)) [
      | inl b ↦ ground arith
      | inr b ↦ ground (arith, ap cache_prio t, tag_prio fd prio h q, rest (λ w. ground arith))
    ]

flush_lines_lem :
    (n p k i : ℕ) (s : Cache)
    → IsStored n s
    → 1 ≤ p
    → p ≤ 4
    → i + k ≤ s.cachelines
    → flush_lines n p k i s ≡ some s
unfolding flush_lines
flush_lines_lem n p zero i s v l u h = refl
flush_lines_lem n p (suc k) i s v l u h = ground (
  arith,
  flush_chain_lem n n p (s.cache i) s v l u (v.end i (omega arith)),
  flush_lines_lem n p k (suc i) s v l u (omega arith),
)

flush_prios_lem :
    (n k p : ℕ) (s : Cache) → IsStored n s → 1 ≤ p → p + k ≤ 5 → flush_prios n k p s ≡ some s
unfolding flush_prios
flush_prios_lem n zero p s v l u = refl
flush_prios_lem n (suc k) p s v l u = ground (
  arith,
  flush_lines_lem n p s.cachelines 0 s v l (omega arith) (omega arith),
  flush_prios_lem n k (suc p) s v (omega arith) (omega arith),
)

-- When every chain of the cache ends within `n` blocks and every block has a tag that
-- `cache_setblock` gave for a priority from 0 to 4, `cache_flush` ends and sends no block at all to
-- be written.
pub cache_flush_lem :
    (n : ℕ) (s : Cache) → IsStored n s → cache_flush n s ≡ some (record s { cache_inflush = 0 })
unfolding cache_flush
cache_flush_lem n s v =
    flush_prios_lem n 4 1 (record s { cache_inflush = 0 })
      (record { end = v.end; stored = v.stored }) (omega arith) (omega arith)
