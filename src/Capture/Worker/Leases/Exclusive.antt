-- ===== src/Capture/Worker/Leases/Exclusive.antt =====
-- One worker at most holds the lease of a camera, in every interleaving of the workers.
use camera_man.Base.{
  ℕ, zero, suc, ◌+◌, ◌≤◌, ◌<◌, ◌≡◌, ◌≢◌, refl, ap, arith, String, true, some, List, [], ◌∷◌,
  get_elem?,
}
use mathlib.Core.Option.{some_inj}
use camera_man.Capture.Lease.{occurs, same_id_refl}
use camera_man.Capture.Worker.{
  Answer, CaptureWorker, Workers, Event, answered, dropped_source, created, answer_at, stop_at,
  take_place, run, no_workers,
}
use camera_man.Capture.Worker.Leases.{holds, held, holds_lease, worker_step-Balanced}

-- What a step does to the leases of all workers.
record AllBalanced (active : List String) (ws : List CaptureWorker)
    (r : List String × List CaptureWorker) : Type 0 where
  sum : (id : String) → occurs id r.0 + held id ws ≡ occurs id active + held id r.1
  once : (id : String) → occurs id r.0 ≤ 1

answer_at-AllBalanced :
    (i now : ℕ) (a : Answer) (active : List String) (ws : List CaptureWorker)
    → ((id : String) → occurs id active ≤ 1)
    → ((id : String) → held id ws ≤ occurs id active)
    → AllBalanced active ws (answer_at i now a active ws)
unfolding answer_at
answer_at-AllBalanced i now a active [] once kept = record { sum = λ id. omega arith; once = once }
answer_at-AllBalanced zero now a active (w ∷ ws) once kept =
    let step =
      worker_step-Balanced now a active w.place w refl
        (record { once = once; kept = λ id. omega (arith, kept id) }) in
    record { sum = λ id. omega (arith, step.sum id); once = step.once }
answer_at-AllBalanced (suc i) now a active (w ∷ ws) once kept =
    let rest = answer_at-AllBalanced i now a active ws once (λ id. omega (arith, kept id)) in
    record { sum = λ id. omega (arith, rest.sum id); once = rest.once }

held-stop_at : (i : ℕ) (ws : List CaptureWorker) (id : String) → held id (stop_at i ws) ≡ held id ws
unfolding stop_at
held-stop_at i [] id = refl
held-stop_at zero (w ∷ ws) id = refl
held-stop_at (suc i) (w ∷ ws) id = omega (arith, held-stop_at i ws id)

-- The set of leases is what the workers hold, and holds each camera once at most.
pub record IsLeased (s : Workers) : Type 0 where
  pub exact : (id : String) → held id s.all ≡ occurs id s.active
  pub once : (id : String) → occurs id s.active ≤ 1

take_place-IsLeased : (e : Event) (s : Workers) → IsLeased s → IsLeased (take_place e s)
unfolding take_place
take_place-IsLeased (answered i now a) s leased =
    let step =
      answer_at-AllBalanced i now a s.active s.all leased.once
        (λ id. omega (arith, leased.exact id)) in
    record { exact = λ id. omega (arith, step.sum id, leased.exact id); once = step.once }
take_place-IsLeased (dropped_source i) s leased = record {
  exact = λ id. omega (arith, held-stop_at i s.all id, leased.exact id);
  once = leased.once;
}
take_place-IsLeased (created now id) s leased = record {
  exact = λ other. omega (arith, leased.exact other);
  once = leased.once;
}

run-IsLeased : (events : List Event) (s : Workers) → IsLeased s → IsLeased (run events s)
run-IsLeased [] s leased = leased
run-IsLeased (e ∷ events) s leased =
    run-IsLeased events (take_place e s) (take_place-IsLeased e s leased)

no_workers-IsLeased : IsLeased no_workers
no_workers-IsLeased = record { exact = λ id. refl; once = λ id. omega arith }

-- The workers at two numbers.
held_one :
    (ws : List CaptureWorker) (i : ℕ) (w : CaptureWorker) (id : String)
    → get_elem? ws i ≡ some w
    → holds id w ≤ held id ws
held_one [] i w id e = absurd (ground arith)
held_one (x ∷ ws) zero w id e =
    let same = some_inj.0 e in omega (arith, ap (λ (v : CaptureWorker). holds id v) same)
held_one (x ∷ ws) (suc i) w id e = omega (arith, held_one ws i w id e)

held_two :
    (ws : List CaptureWorker) (i j : ℕ) (v w : CaptureWorker) (id : String)
    → i < j
    → get_elem? ws i ≡ some v
    → get_elem? ws j ≡ some w
    → holds id v + holds id w ≤ held id ws
held_two ws i zero v w id h e e' = absurd (omega (arith, h))
held_two [] i (suc j) v w id h e e' = absurd (ground arith)
held_two (x ∷ ws) zero (suc j) v w id h e e' =
    let same = some_inj.0 e in
    omega (arith, ap (λ (u : CaptureWorker). holds id u) same, held_one ws j w id e')
held_two (x ∷ ws) (suc i) (suc j) v w id h e e' =
    omega (arith, held_two ws i j v w id (omega (arith, h)) e e')

-- In every interleaving of what the cameras answer, of sources that are created and of sources that
-- are dropped, the set of leases holds exactly the cameras of the workers that hold one, each of
-- them once, and two workers that both hold a lease have different cameras.
pub run-exclusive :
    (events : List Event)
    → ((id : String)
        → (held id (run events no_workers).all ≡ occurs id (run events no_workers).active)
          × (occurs id (run events no_workers).active ≤ 1))
      × ((i j : ℕ) (v w : CaptureWorker)
          → i < j
          → get_elem? (run events no_workers).all i ≡ some v
          → get_elem? (run events no_workers).all j ≡ some w
          → holds_lease v.place ≡ true
          → holds_lease w.place ≡ true
          → v.id ≢ w.id)
run-exclusive events = (
  λ id. (leased.exact id, leased.once id),
  λ i j v w h e e' hv hw same.
      let two = held_two (run events no_workers).all i j v w v.id h e e' in
      absurd (
        omega (
          arith,
          two,
          leased.exact v.id,
          leased.once v.id,
          holds_self v hv,
          holds_same v w hw same,
        )),
)
  where
    leased : IsLeased (run events no_workers)
    leased = run-IsLeased events no_workers no_workers-IsLeased

    holds_self : (v : CaptureWorker) → holds_lease v.place ≡ true → holds v.id v ≡ 1
    holds_self v hv = rw (hv, same_id_refl v.id) refl

    holds_same : (v w : CaptureWorker) → holds_lease w.place ≡ true → v.id ≡ w.id → holds v.id w ≡ 1
    holds_same v w hw same = rw (hw, same, same_id_refl w.id) refl
