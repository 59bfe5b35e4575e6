-- ===== src/Fcb.antt =====
-- The file control blocks of the file system service, src/fs/fcb.c: `fcb_get`, `fcb_add`, `fcb_del`,
-- `fcb_free`. The table `fcb[0 .. nfcb)` is a list, and `nfcb` its length; an `fid_t` is an index.
-- The model is about calls for which the heap has room.
pub mod Table
pub mod Add
pub mod Stuck
pub mod Free
mod Tests
use osz.Base.{
  ℕ, zero, suc, ◌+◌, ◌-◌, ◌^◌, Bool, true, false, not, ◌&&◌, ◌||◌, Option, none, some, List, [],
  ◌∷◌, ◌++◌, ◌⊎◌, inl, inr, length, get_elem?, get_or, set, ltb, ◌==◌, if◌then◌else◌, sub64,
}
use osz.Base.Text.{strcmp}

-- `FCB_TYPE_…`
abbrev pub type_union : ℕ
type_union = 2

abbrev pub type_pipe : ℕ
type_pipe = 4

-- `writebuf_t`: the bytes of a file from an offset on that are not written out yet.
pub record WriteBuf : Type 0 where
  pub offs : ℕ
  pub bytes : List ℕ

-- `fcb_t`; `unionlist` is used by unions only, without the zero that ends it, and `buf` by files.
pub record Fcb : Type 0 where
  pub abspath : Option (List ℕ)
  pub nopen : ℕ
  pub type : ℕ
  pub flags : ℕ
  pub fs : ℕ
  pub mode : ℕ
  pub storage : ℕ
  pub inode : ℕ
  pub filesize : ℕ
  pub blksize : ℕ
  pub unionlist : Option (List ℕ)
  pub buf : List WriteBuf

pub record Fcbs : Type 0 where
  pub fcb : List Fcb
  pub nfiles : ℕ

-- Whether the last byte is a slash.
abbrev pub ends_slash : List ℕ → Bool
ends_slash [] = false
ends_slash (x ∷ []) = x == 47
ends_slash (x ∷ y ∷ p) = ends_slash (y ∷ p)

-- Whether an entry is for the path, or for the path with a slash behind it.
unfoldable pub matches : List ℕ → Fcb → Bool
matches path f = elim f.abspath [
  | none ↦ false
  | some p ↦ strcmp p path || (not (ends_slash path) && strcmp p (path ++ 47 ∷ []))
]

unfoldable pub get_from : List ℕ → ℕ → List Fcb → Option ℕ
get_from path i [] = none
get_from path i (f ∷ fs) =
    let rest = get_from path (suc i) fs in if matches path f then some i else rest

unfoldable pub fcb_get : List ℕ → Fcbs → Option ℕ
fcb_get [] t = none
fcb_get (x ∷ path) t = get_from (x ∷ path) 0 t.fcb

-- The search of `fcb_add`: the entry of the path, or else the first free slot, if there is one.
unfoldable pub add_from : List ℕ → (i : ℕ) (j : Option ℕ) → List Fcb → ℕ ⊎ Option ℕ
add_from path i j [] = inr j
add_from path i j (f ∷ fs) =
    let used = add_from path (suc i) j fs in
    let free = add_from path (suc i) (elim j [ none ↦ some i | some k ↦ some k ]) fs in
    elim f.abspath [ some p ↦ if strcmp p path then inl i else used | none ↦ free ]

-- The fields that `fcb_add` writes.
abbrev pub claim : List ℕ → ℕ → Fcb → Fcb
claim path type f = record f {
  abspath = some path;
  type = type;
  fs = if ltb type type_pipe then 2 ^ 16 - 1 else f.fs;
}

-- What the search leads to. `fresh` is what memory holds behind the table before it grows.
unfoldable pub add_at : Fcb → List ℕ → ℕ → Fcbs → ℕ ⊎ Option ℕ → ℕ × Fcbs
add_at fresh path type t (inl i) = (i, t)
add_at fresh path type t (inr (some i)) = (
  i,
  record { fcb = set t.fcb i (claim path type (get_or t.fcb i fresh)); nfiles = suc t.nfiles },
)
add_at fresh path type t (inr none) =
    (length t.fcb, record { fcb = t.fcb ++ claim path type fresh ∷ []; nfiles = suc t.nfiles })

unfoldable pub fcb_add : Fcb → List ℕ → ℕ → Fcbs → ℕ × Fcbs
fcb_add fresh path type t = add_at fresh path type t (add_from path 0 none t.fcb)

-- Free slots at the end of the table are given back.
unfoldable pub keep : Fcb → List Fcb → List Fcb
keep f [] = elim f.abspath [ none ↦ [] | some p ↦ f ∷ [] ]
keep f (g ∷ gs) = f ∷ g ∷ gs

unfoldable pub trim : List Fcb → List Fcb
trim [] = []
trim (f ∷ fs) = keep f (trim fs)

-- The entry at an index that is free or out of bounds reads as none.
abbrev pub in_use : List Fcb → ℕ → Option Fcb
in_use [] i = none
in_use (f ∷ fs) zero = elim f.abspath [ none ↦ none | some p ↦ some f ]
in_use (f ∷ fs) (suc i) = in_use fs i

-- Deletes the members of a union but the union itself.
unfoldable pub del_members : (ℕ → Fcbs → Option Fcbs) → ℕ → List ℕ → Fcbs → Option Fcbs
del_members del idx [] t = some t
del_members del idx (m ∷ ms) t = elim (if m == idx then some t else del m t) [
  | none ↦ none
  | some t' ↦ del_members del idx ms t'
]

-- The entry becomes a free slot.
abbrev pub drop_entry : ℕ → (Fcb → Fcb) → Fcb → Fcbs → Fcbs
drop_entry idx clear f t = record {
  fcb = trim (set t.fcb idx (record (clear (get_or t.fcb idx f)) { abspath = none; filesize = 0 }));
  nfiles = sub64 t.nfiles 1;
}

-- The members are deleted first, when the entry is a union with a list. The source goes on with a
-- pointer to the entry from before, which dangles when the table was moved meanwhile; here the entry
-- is found again.
unfoldable pub del_union : (ℕ → Fcbs → Option Fcbs) → ℕ → Fcb → Fcbs → Option Fcbs
del_union del idx f t = elim (if f.type == type_union then f.unionlist else none) [
  | none ↦ some (drop_entry idx (λ g. g) f t)
  | some ms ↦ elim (del_members del idx ms t) [
    | none ↦ none
    | some t' ↦ some (drop_entry idx (λ g. record g { unionlist = none }) f t')
  ]
]

-- `n` bounds how deep unions hold unions; `none` when they go deeper.
unfoldable pub fcb_del : (n idx : ℕ) → Fcbs → Option Fcbs
fcb_del zero idx t = none
fcb_del (suc n) idx t = elim (in_use t.fcb idx) [
  | none ↦ some t
  | some f ↦
      let f' : Fcb = record f { nopen = f.nopen - 1 } in
      let t' : Fcbs = record t { fcb = set t.fcb idx f' } in
      elim f'.nopen [ zero ↦ del_union (fcb_del n) idx f' t' | suc k ↦ some t' ]
]

-- The loop of `fcb_free` over the table, from index `i` on, and whether it tried to delete an entry.
-- `n` bounds the iterations: the table does not grow.
unfoldable pub free_loop : (n depth i : ℕ) → Bool → Fcbs → Option (Bool × Fcbs)
free_loop zero depth i was t = some (was, t)
free_loop (suc n) depth i was t = elim (get_elem? t.fcb i) [
  | none ↦ some (was, t)
  | some f ↦ elim f.nopen [
    | zero ↦ elim (fcb_del depth i t) [ none ↦ none | some t' ↦ free_loop n depth (suc i) true t' ]
    | suc k ↦ free_loop n depth (suc i) was t
  ]
]

-- What follows a turn over the table.
unfoldable pub free_again : (Fcbs → Option Fcbs) → Option (Bool × Fcbs) → Option Fcbs
free_again again none = none
free_again again (some (true, t)) = again t
free_again again (some (false, t)) = some t

-- `turns` bounds the turns over the table, `depth` how deep unions hold unions.
unfoldable pub fcb_free : (turns depth : ℕ) → Fcbs → Option Fcbs
fcb_free zero depth t = none
fcb_free (suc turns) depth t =
    free_again (fcb_free turns depth) (free_loop (length t.fcb) depth 0 false t)
