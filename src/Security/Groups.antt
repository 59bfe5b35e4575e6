-- ===== src/Security/Groups.antt =====
-- The access control list: which entry decides, and what a name matches.
use osz.Base.{ℕ, ◌≤◌, ◌≡◌, ◌≢◌, refl, true, some, List, [], ◌∷◌, ◌++◌, length, arith}
use osz.Base.Text.{kmemcmp}
use osz.Security.{Sender, grants, find_ace, task_allowed}

-- No byte of the text is zero.
abbrev pub IsName : List ℕ → Type 0
IsName [] = Unit {0}
IsName (x ∷ xs) = (x ≢ 0) × IsName xs

-- A name matches every text that begins with it.
kmemcmp-append : (grp tail : List ℕ) → IsName grp → kmemcmp (length grp) (grp ++ tail) grp ≡ true
unfolding kmemcmp
kmemcmp-append [] tail h = refl
kmemcmp-append (x ∷ xs) tail (ne, h) = ground (arith, kmemcmp-append xs tail h)

-- An entry whose name begins with the name of the group, and is longer, decides for the group like
-- an entry of the group itself, if it is the first of the list: `task_allowed` compares no more bytes
-- than the group's name has.
task_allowed-prefix :
    (tcb : Sender) (x : ℕ) (grp tail : List ℕ) (acl : List (List ℕ)) (access : ℕ)
    → IsName (x ∷ grp)
    → length (x ∷ grp) ≤ 15
    → tcb.acl ≡ (x ∷ grp ++ tail) ∷ acl
    → task_allowed tcb (some (x ∷ grp)) access ≡ grants (x ∷ grp ++ tail) access
unfolding task_allowed find_ace
task_allowed-prefix tcb x grp tail acl access h short e =
    rw e (ground (arith, kmemcmp-append (x ∷ grp) tail h))
