-- ===== src/Messages/Slots.antt =====
-- Which slots of a queue are in use, by the positions where it starts and ends.
use osz.Base.{
  ℕ, zero, suc, ◌+◌, ◌-◌, ◌^◌, ◌≤◌, ◌<◌, ◌≡◌, ◌≢◌, refl, sym, ap, ◌∙◌, ◌&&◌, ◌||◌, List, [], ◌∷◌,
  ◌++◌, length, length-append, ltb, leb, ◌==◌, if◌then◌else◌, add64, arith,
}
use osz.Messages.{Msg, bump, store}

-- The slot `k` places behind slot `p`.
abbrev pub pos : (size p k : ℕ) → ℕ
pos size p k = if ltb (p + k) size then p + k else p + k - (size - 1)

-- The messages in `n` slots from slot `p` on.
abbrev pub from : (ℕ → Msg) → (size p n : ℕ) → List Msg
from slots size p zero = []
from slots size p (suc n) = from slots size p n ++ slots (pos size p n) ∷ []

-- How many messages wait.
abbrev pub count : (size start end : ℕ) → ℕ
count size start end = if leb end start then start - end else start + (size - 1) - end

pub length-from : (slots : ℕ → Msg) (size p n : ℕ) → length (from slots size p n) ≡ n
length-from slots size p zero = refl
length-from slots size p (suc n) = omega (
  arith,
  length-from slots size p n,
  length-append (from slots size p n) (slots (pos size p n) ∷ []),
)

-- A write to a slot that none of them is in.
from-store :
    (slots : ℕ → Msg) (size p n i : ℕ) (m : Msg)
    → ((k : ℕ) → k < n → i ≢ pos size p k)
    → from (store i m slots) size p n ≡ from slots size p n
from-store slots size p zero i m h = refl
from-store slots size p (suc n) i m h =
    let e = from-store slots size p n i m (λ k l. h k (omega arith)) in
    let d : store i m slots (pos size p n) ≡ slots (pos size p n) =
      ground (arith, h n (omega arith)) in
    ground (arith, e, d)

pos-bump :
    (size p k : ℕ)
    → 1 ≤ p
    → p < size
    → size < 2 ^ 64
    → k < size - 1
    → pos size (bump size p) k ≡ pos size p (suc k)
unfolding bump
pos-bump size p k a b c d = ground arith

-- The first of them apart.
pub from-cons :
    (slots : ℕ → Msg) (size p n : ℕ)
    → 1 ≤ p
    → p < size
    → size < 2 ^ 64
    → n < size
    → from slots size p (suc n) ≡ slots p ∷ from slots size (bump size p) n
from-cons slots size p zero a b c d =
    ap (λ i. slots i ∷ []) {x = pos size p 0} {y = p} (ground arith)
from-cons slots size p (suc n) a b c d =
    ap (λ (l : List Msg). l ++ slots (pos size p (suc n)) ∷ [])
      (from-cons slots size p n a b c (omega arith))
    ∙ ap (λ i. slots p ∷ (from slots size (bump size p) n ++ slots i ∷ []))
        (sym (pos-bump size p n a b c (omega arith)))

-- Positions `s` of the start and `e` of the end in a queue of `size` slots.
module _ (size s e : ℕ) (a : 1 ≤ s) (b : s < size) (c : 1 ≤ e) (d : e < size)
    (w : size < 2 ^ 64) where
  pub count_lt : count size s e < size - 1
  count_lt = ground arith

  pos-count : pos size e (count size s e) ≡ s
  pos-count = ground arith

  pos_ne : (k : ℕ) → k < count size s e → s ≢ pos size e k
  pos_ne k h q = absurd (ground arith)

  pub bump-Range : (1 ≤ bump size s) × (bump size s < size)
  unfolding bump
  bump-Range = ground arith

  -- Not full, not empty
  pub count-bump_start :
      count size s e < size - 2 → count size (bump size s) e ≡ suc (count size s e)
  unfolding bump
  count-bump_start h = ground arith

  count-bump_end : e ≢ s → suc (count size s (bump size e)) ≡ count size s e
  unfolding bump
  count-bump_end h = ground arith

  pub full_iff :
      ((add64 s 1 == e) || ((add64 s 1 == size) && (e == 1))) ≡ (count size s e == size - 2)
  full_iff = ground arith

-- A full queue: the oldest message goes.
pub count-bump_both :
    (size s e : ℕ)
    → 1 ≤ s
    → s < size
    → 1 ≤ e
    → e < size
    → size < 2 ^ 64
    → 3 ≤ size
    → count size (bump size s) (bump size e) ≡ count size s e
unfolding bump
count-bump_both size s e a b c d w g = ground arith

-- A queue after the message `m` was put into slot `start` of a queue that is not full.
pub pending-store :
    (slots : ℕ → Msg) (size s e : ℕ) (m : Msg)
    → 1 ≤ s
    → s < size
    → 1 ≤ e
    → e < size
    → size < 2 ^ 64
    → from (store s m slots) size e (suc (count size s e))
      ≡ from slots size e (count size s e) ++ m ∷ []
pending-store slots size s e m a b c d w =
    let n = count size s e in
    let l = from-store slots size e n s m (pos_ne size s e a b c d w) in
    let h : store s m slots (pos size e n) ≡ m = ground (arith, pos-count size s e a b c d w) in
    ground (arith, l, h)

-- A queue of which one more was read.
pub pending-bump :
    (slots : ℕ → Msg) (size s e : ℕ)
    → 1 ≤ s
    → s < size
    → 1 ≤ e
    → e < size
    → size < 2 ^ 64
    → e ≢ s
    → from slots size e (count size s e)
      ≡ slots e ∷ from slots size (bump size e) (count size s (bump size e))
pending-bump slots size s e a b c d w h =
    let n = count-bump_end size s e a b c d w h in
    let l = count_lt size s e a b c d w in
    ap (from slots size e) (sym n)
    ∙ from-cons slots size e (count size s (bump size e)) c d w (omega arith)
