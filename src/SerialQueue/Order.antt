-- ===== src/SerialQueue/Order.antt =====
-- The operations of src/serial-queue.ts run one at a time, in the order of their calls.
use stage5_browser.Base.{
  ℕ, zero, suc, ◌+◌, ◌-◌, ◌≤◌, ◌≡◌, ◌≢◌, refl, subst, inl, inr, true, false, Option, none, some,
  List, [], ◌∷◌, ◌++◌, arith, Option-cases,
}
use stage5_browser.SerialQueue.{
  Ticket, waits, runs, released, Queue, Event, calls, starts, ends, prefixed, start_at, end_at,
  step, pending_count, run, empty_queue,
}

abbrev pub AllWait : List Ticket → Type 0
AllWait [] = Unit {0}
AllWait (waits ∷ ts) = AllWait ts
AllWait (_ ∷ ts) = ⊥

-- Released calls, then at most one that runs, then calls that wait.
abbrev pub InOrder : List Ticket → Type 0
InOrder [] = Unit {0}
InOrder (released ∷ ts) = InOrder ts
InOrder (runs ∷ ts) = AllWait ts
InOrder (waits ∷ ts) = AllWait ts

abbrev pub unreleased : List Ticket → ℕ
unreleased [] = 0
unreleased (released ∷ ts) = unreleased ts
unreleased (_ ∷ ts) = suc (unreleased ts)

abbrev pub running : List Ticket → ℕ
running [] = 0
running (runs ∷ ts) = suc (running ts)
running (_ ∷ ts) = running ts

running-AllWait : (ts : List Ticket) → AllWait ts → running ts ≡ 0
running-AllWait [] h = refl
running-AllWait (waits ∷ ts) h = running-AllWait ts h
running-AllWait (runs ∷ ts) h = elim h [ ]
running-AllWait (released ∷ ts) h = elim h [ ]

running-InOrder : (ts : List Ticket) → InOrder ts → running ts ≤ 1
running-InOrder [] h = omega arith
running-InOrder (released ∷ ts) h = running-InOrder ts h
running-InOrder (runs ∷ ts) h = omega (arith, running-AllWait ts h)
running-InOrder (waits ∷ ts) h = omega (arith, running-AllWait ts h)

call-AllWait : (ts : List Ticket) → AllWait ts → AllWait (ts ++ waits ∷ [])
call-AllWait [] h = tt
call-AllWait (waits ∷ ts) h = call-AllWait ts h
call-AllWait (runs ∷ ts) h = elim h [ ]
call-AllWait (released ∷ ts) h = elim h [ ]

call-InOrder : (ts : List Ticket) → InOrder ts → InOrder (ts ++ waits ∷ [])
call-InOrder [] h = tt
call-InOrder (released ∷ ts) h = call-InOrder ts h
call-InOrder (runs ∷ ts) h = call-AllWait ts h
call-InOrder (waits ∷ ts) h = call-AllWait ts h

call-unreleased : (ts : List Ticket) → unreleased (ts ++ waits ∷ []) ≡ unreleased ts + 1
call-unreleased [] = refl
call-unreleased (released ∷ ts) = call-unreleased ts
call-unreleased (runs ∷ ts) = omega (arith, call-unreleased ts)
call-unreleased (waits ∷ ts) = omega (arith, call-unreleased ts)

-- What holds of a queue between two events.
abbrev pub IsSerial : Queue → Type 0
IsSerial q = InOrder q.tickets × (q.waiting ≡ unreleased q.tickets)

AllWait-InOrder : (ts : List Ticket) → AllWait ts → InOrder ts
AllWait-InOrder [] h = tt
AllWait-InOrder (waits ∷ ts) h = h
AllWait-InOrder (runs ∷ ts) h = elim h [ ]
AllWait-InOrder (released ∷ ts) h = elim h [ ]

-- Nothing after a call that waits can start.
start_at-AllWait : (n : ℕ) (ts ts' : List Ticket) → AllWait ts → start_at false n ts ≢ some ts'
unfolding start_at
start_at-AllWait n [] ts' h e = ground (arith, e)
start_at-AllWait zero (waits ∷ ts) ts' h e = ground (arith, e)
start_at-AllWait (suc n) (waits ∷ ts) ts' h e = elim (Option-cases (start_at false n ts)) [
  | inl q ↦ ground (arith, q, e)
  | inr (us, q) ↦ start_at-AllWait n ts us h q
]
start_at-AllWait n (runs ∷ ts) ts' h e = elim h [ ]
start_at-AllWait n (released ∷ ts) ts' h e = elim h [ ]

-- Nothing that waits can end.
end_at-AllWait : (n : ℕ) (ts ts' : List Ticket) → AllWait ts → end_at n ts ≢ some ts'
unfolding end_at
end_at-AllWait n [] ts' h e = ground (arith, e)
end_at-AllWait zero (waits ∷ ts) ts' h e = ground (arith, e)
end_at-AllWait (suc n) (waits ∷ ts) ts' h e = elim (Option-cases (end_at n ts)) [
  | inl q ↦ ground (arith, q, e)
  | inr (us, q) ↦ end_at-AllWait n ts us h q
]
end_at-AllWait n (runs ∷ ts) ts' h e = elim h [ ]
end_at-AllWait n (released ∷ ts) ts' h e = elim h [ ]

prefixed-none :
    (t : Ticket) (o : Option (List Ticket))
    → ((us : List Ticket) → o ≢ some us)
    → (ts : List Ticket) → prefixed t o ≢ some ts
prefixed-none t none h ts e = ground (arith, e)
prefixed-none t (some us) h ts e = h us refl

-- In order, with so many calls that are not released.
abbrev IsNext : ℕ → List Ticket → Type 0
IsNext n ts = InOrder ts × (unreleased ts ≡ n)

start_at-InOrder :
    (n : ℕ) (ts ts' : List Ticket)
    → InOrder ts
    → start_at true n ts ≡ some ts'
    → IsNext (unreleased ts) ts'
unfolding start_at
start_at-InOrder n [] ts' h e = absurd (ground (arith, e))
start_at-InOrder zero (waits ∷ ts) ts' h e =
    let same : runs ∷ ts ≡ ts' = ground (arith, e) in
    subst (IsNext (suc (unreleased ts))) same (h, refl)
start_at-InOrder zero (runs ∷ ts) ts' h e = absurd (ground (arith, e))
start_at-InOrder zero (released ∷ ts) ts' h e = absurd (ground (arith, e))
start_at-InOrder (suc n) (released ∷ ts) ts' h e = elim (Option-cases (start_at true n ts)) [
  | inl q ↦ absurd (ground (arith, q, e))
  | inr (us, q) ↦
      let same : released ∷ us ≡ ts' = ground (arith, q, e) in
      subst (IsNext (unreleased ts)) same (start_at-InOrder n ts us h q)
]
start_at-InOrder (suc n) (runs ∷ ts) ts' h e =
    absurd (prefixed-none runs (start_at false n ts) (λ us. start_at-AllWait n ts us h) ts' e)
start_at-InOrder (suc n) (waits ∷ ts) ts' h e =
    absurd (prefixed-none waits (start_at false n ts) (λ us. start_at-AllWait n ts us h) ts' e)

end_at-InOrder :
    (n : ℕ) (ts ts' : List Ticket)
    → InOrder ts
    → end_at n ts ≡ some ts'
    → IsNext (unreleased ts - 1) ts'
unfolding end_at
end_at-InOrder n [] ts' h e = absurd (ground (arith, e))
end_at-InOrder zero (runs ∷ ts) ts' h e =
    let same : released ∷ ts ≡ ts' = ground (arith, e) in
    subst (IsNext (suc (unreleased ts) - 1)) same (AllWait-InOrder ts h, omega arith)
end_at-InOrder zero (waits ∷ ts) ts' h e = absurd (ground (arith, e))
end_at-InOrder zero (released ∷ ts) ts' h e = absurd (ground (arith, e))
end_at-InOrder (suc n) (released ∷ ts) ts' h e = elim (Option-cases (end_at n ts)) [
  | inl q ↦ absurd (ground (arith, q, e))
  | inr (us, q) ↦
      let same : released ∷ us ≡ ts' = ground (arith, q, e) in
      subst (IsNext (unreleased ts - 1)) same (end_at-InOrder n ts us h q)
]
end_at-InOrder (suc n) (runs ∷ ts) ts' h e =
    absurd (prefixed-none runs (end_at n ts) (λ us. end_at-AllWait n ts us h) ts' e)
end_at-InOrder (suc n) (waits ∷ ts) ts' h e =
    absurd (prefixed-none waits (end_at n ts) (λ us. end_at-AllWait n ts us h) ts' e)

pub step-IsSerial : (e : Event) (q q' : Queue) → IsSerial q → step e q ≡ some q' → IsSerial q'
unfolding step
step-IsSerial calls q q' (h, k) e =
    let same : record { tickets = q.tickets ++ waits ∷ []; waiting = q.waiting + 1 } ≡ q' =
      ground (arith, e) in
    subst IsSerial same (call-InOrder q.tickets h, omega (arith, k, call-unreleased q.tickets))
step-IsSerial (starts n) q q' (h, k) e = elim (Option-cases (start_at true n q.tickets)) [
  | inl p ↦ absurd (ground (arith, p, e))
  | inr (ts, p) ↦
      let next = start_at-InOrder n q.tickets ts h p in
      let same : record { tickets = ts; waiting = q.waiting } ≡ q' = ground (arith, p, e) in
      subst IsSerial same (next.0, omega (arith, k, next.1))
]
step-IsSerial (ends n) q q' (h, k) e = elim (Option-cases (end_at n q.tickets)) [
  | inl p ↦ absurd (ground (arith, p, e))
  | inr (ts, p) ↦
      let next = end_at-InOrder n q.tickets ts h p in
      let same : record { tickets = ts; waiting = q.waiting - 1 } ≡ q' = ground (arith, p, e) in
      subst IsSerial same (next.0, omega (arith, k, next.1))
]

run-IsSerial_from : (es : List Event) (q q' : Queue) → IsSerial q → run es q ≡ some q' → IsSerial q'
unfolding run
run-IsSerial_from [] q q' h e = let same : q ≡ q' = ground (arith, e) in subst IsSerial same h
run-IsSerial_from (x ∷ es) q q' h e = elim (Option-cases (step x q)) [
  | inl p ↦ absurd (ground (arith, p, e))
  | inr (q1, p) ↦ run-IsSerial_from es q1 q' (step-IsSerial x q q1 h p) (ground (arith, p, e))
]

-- However the calls of a queue and the ends of their operations interleave, at most one operation runs
-- at a time, the operations start in the order of their calls, each after the one before has ended,
-- and the pending count is the number of calls whose operation has not ended.
pub run-IsSerial :
    (es : List Event) (q : Queue)
    → run es empty_queue ≡ some q
    → (running q.tickets ≤ 1) × InOrder q.tickets × (pending_count q ≡ unreleased q.tickets)
run-IsSerial es q e =
    let serial = run-IsSerial_from es empty_queue q (tt, refl) e in
    (running-InOrder q.tickets serial.0, serial.0, serial.1)
