-- ===== src/SerialQueue/Progress.antt =====
-- A queue of src/serial-queue.ts that is not called any more comes to rest.
use stage5_browser.Base.{
  ℕ, zero, suc, ◌+◌, ◌-◌, ◌≡◌, ◌∙◌, subst, ap, refl, Bool, true, false, some, ◌⊎◌, List, [], ◌∷◌,
  length, arith, Option-cases, inl, inr, All,
}
use stage5_browser.SerialQueue.{
  Ticket, waits, runs, released, Queue, Event, calls, starts, ends, is_released, start_at, end_at,
  step, pending_count, run, empty_queue,
}
use stage5_browser.SerialQueue.Order.{unreleased, IsSerial, run-IsSerial, step-IsSerial}

-- The starts and ends that the calls have before them.
abbrev pub work : List Ticket → ℕ
work [] = 0
work (waits ∷ ts) = suc (suc (work ts))
work (runs ∷ ts) = suc (work ts)
work (released ∷ ts) = work ts

-- A start or an end.
abbrev pub IsWork : Event → Type 0
IsWork calls = ⊥
IsWork _ = Unit {0}

work-cons :
    (t : Ticket) (ts us : List Ticket)
    → work ts ≡ suc (work us)
    → work (t ∷ ts) ≡ suc (work (t ∷ us))
work-cons waits ts us h = omega (arith, h)
work-cons runs ts us h = omega (arith, h)
work-cons released ts us h = h

start_at-work :
    (previous : Bool) (n : ℕ) (ts ts' : List Ticket)
    → start_at previous n ts ≡ some ts'
    → work ts ≡ suc (work ts')
unfolding start_at
start_at-work previous n [] ts' h = absurd (ground (arith, h))
start_at-work true zero (waits ∷ ts) ts' h = ground (arith, h)
start_at-work true zero (runs ∷ ts) ts' h = absurd (ground (arith, h))
start_at-work true zero (released ∷ ts) ts' h = absurd (ground (arith, h))
start_at-work false zero (t ∷ ts) ts' h = absurd (ground (arith, h))
start_at-work previous (suc n) (t ∷ ts) ts' h =
    elim (Option-cases (start_at (is_released t) n ts)) [
      | inl e ↦ absurd (ground (arith, e, h))
      | inr (us, e) ↦
          let same : ts' ≡ t ∷ us = ground (arith, e, h) in
          rw same (work-cons t ts us (start_at-work (is_released t) n ts us e))
    ]

end_at-work : (n : ℕ) (ts ts' : List Ticket) → end_at n ts ≡ some ts' → work ts ≡ suc (work ts')
unfolding end_at
end_at-work n [] ts' h = absurd (ground (arith, h))
end_at-work zero (runs ∷ ts) ts' h = ground (arith, h)
end_at-work zero (waits ∷ ts) ts' h = absurd (ground (arith, h))
end_at-work zero (released ∷ ts) ts' h = absurd (ground (arith, h))
end_at-work (suc n) (t ∷ ts) ts' h = elim (Option-cases (end_at n ts)) [
  | inl e ↦ absurd (ground (arith, e, h))
  | inr (us, e) ↦
      let same : ts' ≡ t ∷ us = ground (arith, e, h) in
      rw same (work-cons t ts us (end_at-work n ts us e))
]

-- The place of the first call that is not released.
first_open : List Ticket → ℕ
first_open [] = 0
first_open (released ∷ ts) = suc (first_open ts)
first_open (_ ∷ ts) = 0

-- The first call that is not released can start or end.
first_moves :
    (ts : List Ticket) (n : ℕ)
    → unreleased ts ≡ suc n
    → ((ts' : List Ticket) × (start_at true (first_open ts) ts ≡ some ts'))
      ⊎ ((ts' : List Ticket) × (end_at (first_open ts) ts ≡ some ts'))
unfolding start_at end_at first_open
first_moves [] n h = absurd (ground (arith, h))
first_moves (waits ∷ ts) n h = inl (runs ∷ ts, refl)
first_moves (runs ∷ ts) n h = inr (released ∷ ts, refl)
first_moves (released ∷ ts) n h = elim (first_moves ts n h) [
  | inl (us, e) ↦ inl (released ∷ us, rw e refl)
  | inr (us, e) ↦ inr (released ∷ us, rw e refl)
]

step-work :
    (e : Event) (q q' : Queue)
    → IsWork e
    → step e q ≡ some q'
    → work q.tickets ≡ suc (work q'.tickets)
unfolding step
step-work calls q q' w = elim w [ ]
step-work (starts n) q q' w = elim (Option-cases (start_at true n q.tickets)) [
  | inl e ↦ rw e (λ h. absurd (ground (arith, h)))
  | inr (ts, e) ↦ rw e (λ h. ground (arith, h, start_at-work true n q.tickets ts e))
]
step-work (ends n) q q' w = elim (Option-cases (end_at n q.tickets)) [
  | inl e ↦ rw e (λ h. absurd (ground (arith, h)))
  | inr (ts, e) ↦ rw e (λ h. ground (arith, h, end_at-work n q.tickets ts e))
]

-- A start or an end can happen.
abbrev pub CanMove : Queue → Type 0
CanMove q = (e : Event) × (q' : Queue) × IsWork e × (step e q ≡ some q')

pending-CanMove : (q : Queue) (n : ℕ) → unreleased q.tickets ≡ suc n → CanMove q
unfolding step
pending-CanMove q n h = elim (first_moves q.tickets n h) [
  | inl (ts, e) ↦
      (starts (first_open q.tickets), record { tickets = ts; waiting = q.waiting }, tt, rw e refl)
  | inr (ts, e) ↦
      (ends (first_open q.tickets), record { tickets = ts; waiting = q.waiting - 1 }, tt, rw e refl)
]

run-work :
    (more : List Event) (q q' : Queue)
    → IsSerial q
    → All IsWork more
    → run more q ≡ some q'
    → (work q.tickets ≡ length more + work q'.tickets) × IsSerial q'
unfolding run
run-work [] q q' v w h =
    let same : q ≡ q' = ground (arith, h) in
    (omega (arith, ap (λ (x : Queue). work x.tickets) same), subst IsSerial same v)
run-work (e ∷ more) q q' v w h = elim (Option-cases (step e q)) [
  | inl k ↦ absurd (ground (arith, k, h))
  | inr (s, k) ↦
      let rest = run-work more s q' (step-IsSerial e q s v k) w.1 (ground (arith, k, h)) in
      (omega (arith, rest.0, step-work e q s w.0 k), rest.1)
]

IsPending-cases : (n : ℕ) → (n ≡ 0) ⊎ ((m : ℕ) × (n ≡ suc m))
IsPending-cases zero = inl refl
IsPending-cases (suc m) = inr (m, refl)

-- From a state that a queue comes to, let any starts and ends follow. Each takes one off the work, which
-- is two for a call that waits and one for a call that runs, so there are at most that many; and then
-- nothing is pending, or another start or end can happen. So whatever the order, starts and ends that go
-- on as long as any can happen leave nothing pending.
pub run_settles :
    (es more : List Event) (q q' : Queue)
    → run es empty_queue ≡ some q
    → All IsWork more
    → run more q ≡ some q'
    → (length more + work q'.tickets ≡ work q.tickets)
      × (((pending_count q' ≡ 0) × (unreleased q'.tickets ≡ 0)) ⊎ CanMove q')
run_settles es more q q' e w h =
    let serial = run-IsSerial es q e in
    let (spent, v) = run-work more q q' (serial.1, serial.2) w h in
    (
      omega (arith, spent),
      elim (IsPending-cases (unreleased q'.tickets)) [
        | inl k ↦ inl (v.1 ∙ k, k)
        | inr (n, k) ↦ inr (pending-CanMove q' n k)
      ],
    )
