-- ===== src/Security/Tests.antt =====
-- Runs of security.c, and its theorems at these senders.
use osz.Base.Errno.{eperm}
use osz.Base.{ℕ, ◌≡◌, ◌↔◌, ◌≢◌, refl, true, false, some, [], ◌∷◌, ◌++◌, ◌+◌, ◌==◌, if◌then◌else◌}
use osz.Base.Text.{codes, kmemcmp}
use osz.Security.{
  Sender, srv, pri_sys, evt_func, find_ace, task_allowed, fs_allowed, is_allowed, msg_allowed,
}
use osz.Security.Policy.{Denied, msg_allowed_iff}

-- The services run as the tasks 101 to 107.
abbrev tasks : ℕ → ℕ
tasks k = if k == 0 then 0 else 100 + k

-- An application of an ordinary user that may not use the network.
abbrev app : Sender
app = record { pid = 200; priority = 5; owner = codes "joe"; acl = codes "noinet" ∷ [] }

-- An entry for a group whose name begins like another's: "mountain", padded, with write access.
abbrev climber : Sender
climber = record {
  pid = 201;
  priority = 5;
  owner = codes "ann";
  acl = (109 ∷ codes "ount" ++ (codes "ain" ++ 0 ∷ 0 ∷ 0 ∷ 0 ∷ 0 ∷ 0 ∷ 0 ∷ 2 ∷ [])) ∷ [];
}

no_net : msg_allowed tasks app (srv 4) 3 0 ≡ (false, eperm)
unfolding msg_allowed is_allowed task_allowed find_ace kmemcmp
no_net = refl

may_read : msg_allowed tasks app (srv 1) 20 0 ≡ (true, 0)
unfolding msg_allowed is_allowed fs_allowed task_allowed find_ace kmemcmp
may_read = refl

climber_mounts : task_allowed climber (some (codes "mount")) 2 ≡ true
unfolding task_allowed find_ace kmemcmp
climber_mounts = refl

msg_allowed_iff_example :
    ((msg_allowed tasks app (srv 4) 3 0 ≡ (false, eperm))
      ↔ ((app.priority ≢ pri_sys) × Denied tasks app (srv 4) (evt_func 3)))
    × ((msg_allowed tasks app (srv 4) 3 0 ≡ (true, 0))
        ↔ (¬ ((app.priority ≢ pri_sys) × Denied tasks app (srv 4) (evt_func 3))))
msg_allowed_iff_example = msg_allowed_iff tasks app (srv 4) 3 0
