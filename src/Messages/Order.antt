-- ===== src/Messages/Order.antt =====
-- A message in the queue is received in its turn.
use osz.Base.{
  ℕ, zero, suc, ◌-◌, ◌<◌, ◌≡◌, sym, ap, ◌∙◌, false, Option, none, some, List, [], ◌∷◌, ◌++◌, length,
  drop, ◌==◌, if◌then◌else◌, arith,
}
use osz.Messages.{Msg, Queue, ksend, recv}
use osz.Messages.Ring.{IsValid, pending, stored, Taken, ksend-Queued, recv-Taken}

abbrev pub nth_recv : ℕ → Queue → Option Msg
nth_recv zero q = elim (recv q) [ none ↦ none | some ((e, sender, m), q') ↦ some m ]
nth_recv (suc n) q = elim (recv q) [ none ↦ none | some ((e, sender, m), q') ↦ nth_recv n q' ]

cons_parts : (m m' : Msg) (ms ms' : List Msg) → m ∷ ms ≡ m' ∷ ms' → (m ≡ m') × (ms ≡ ms')
cons_parts m m' ms ms' e = ground (arith, e)

first_lem :
    (q : Queue) (rest : List Msg) (m : Msg) (r : Option ((ℕ × ℕ × Msg) × Queue))
    → Taken q r
    → pending q ≡ m ∷ rest
    → elim r [ none ↦ none | some ((e, sender, m'), q') ↦ some m' ] ≡ some m
first_lem q rest m none t e = ground (arith, sym t ∙ e)
first_lem q rest m (some ((f, sender, m'), q')) (t, v, w, u) e =
    ap some (cons_parts m' m (pending q') rest (sym t ∙ e)).0

next_lem :
    (q : Queue) (x : Msg) (ms rest : List Msg) (m : Msg) (r : Option ((ℕ × ℕ × Msg) × Queue))
    → Taken q r
    → pending q ≡ x ∷ (ms ++ m ∷ rest)
    → ((q' : Queue) → IsValid q' → pending q' ≡ ms ++ m ∷ rest → nth_recv (length ms) q' ≡ some m)
    → elim r [ none ↦ none | some ((e, sender, m'), q') ↦ nth_recv (length ms) q' ] ≡ some m
next_lem q x ms rest m none t e ih = ground (arith, sym t ∙ e)
next_lem q x ms rest m (some ((f, sender, m'), q')) (t, v, w, u) e ih =
    ih q' v (cons_parts m' x (pending q') (ms ++ m ∷ rest) (sym t ∙ e)).1

nth_recv_lem :
    (ms rest : List Msg) (m : Msg) (q : Queue)
    → IsValid q
    → pending q ≡ ms ++ m ∷ rest
    → nth_recv (length ms) q ≡ some m
nth_recv_lem [] rest m q v e = first_lem q rest m (recv q) (recv-Taken q v) e
nth_recv_lem (x ∷ ms) rest m q v e =
    next_lem q x ms rest m (recv q) (recv-Taken q v) e (λ q' w d. nth_recv_lem ms rest m q' w d)

-- A message that `ksend` puts into a valid queue that is not full is received after all messages
-- that waited before it: by the next receiver when none did.
pub nth_recv-ksend :
    (q : Queue) (m : Msg) (pid serial : ℕ)
    → IsValid q
    → length (pending q) < q.mq_size - 2
    → nth_recv (length (pending q)) (ksend q m pid serial).1 ≡ some (stored m pid serial)
nth_recv-ksend q m pid serial v h =
    let (ok, n, w, p) = ksend-Queued q m pid serial v in
    let e : (length (pending q) == q.mq_size - 2) ≡ false = ground arith in
    let d : pending (ksend q m pid serial).1 ≡ pending q ++ stored m pid serial ∷ [] =
      p ∙ ap (λ b. drop (if b then 1 else 0) (pending q ++ stored m pid serial ∷ [])) e in
    nth_recv_lem (pending q) [] (stored m pid serial) (ksend q m pid serial).1 w d
