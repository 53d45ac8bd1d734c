-- ===== src/Supervisor/Replacement.antt =====
-- What `replaceWorker` of src/supervisor/worker-lifecycle.ts does to the workers.
use stage5_browser.Base.{
  ℕ, ◌+◌, ◌≡◌, refl, sym, subst, ◌∙◌, ap, ◌⊎◌, inl, inr, true, false, Option, none, some, List, [],
  ◌∷◌, ◌++◌, ◌==◌, if◌then◌else◌, arith, Bool-cases, Option-cases,
}
use mathlib.Core.List.{append-nil}
use stage5_browser.Effect.{Outcome, ok, err}
use stage5_browser.Supervisor.{
  Supervisor, Host, Child, Reply, answers, rejects, stays_silent, exits, unsendable, WorkerRuntime,
  Thrown,
}
use stage5_browser.Supervisor.Worker.{
  worker_protocol_version, next_reply, settle_request, handle_worker_failure, request_initialize,
  initialize_worker, signalled, terminate_worker, fork, start_worker, ensure_worker,
  adopt_compatible_fingerprint, compatible_update, replace_worker,
}

-- The workers that were started and signalled are the same, and a call that returns has left the
-- current one.
abbrev KeepsWorker : {A : Type 0} → Supervisor → Supervisor × Outcome Thrown A → Type 0
KeepsWorker {A} s out =
    (out.0.forked ≡ s.forked)
    × (out.0.terminated ≡ s.terminated)
    × (((a : A) × (out.1 ≡ ok a) × (out.0.child ≡ s.child)) ⊎ ((t : Thrown) × (out.1 ≡ err t)))

settle_request-KeepsWorker :
    {A : Type 0} (r : Reply A) (s : Supervisor) → KeepsWorker s (settle_request r s)
unfolding settle_request handle_worker_failure
settle_request-KeepsWorker (answers a) s = (refl, refl, inl (a, refl, refl))
settle_request-KeepsWorker (rejects e) s = (refl, refl, inr (_, refl))
settle_request-KeepsWorker stays_silent s = (refl, refl, inr (_, refl))
settle_request-KeepsWorker exits s = (refl, refl, inr (_, refl))
settle_request-KeepsWorker unsendable s = (refl, refl, inr (_, refl))

request_initialize-KeepsWorker : (s : Supervisor) → KeepsWorker s (request_initialize s)
unfolding request_initialize
request_initialize-KeepsWorker s =
    settle_request-KeepsWorker {A = WorkerRuntime} (next_reply s.initializations) _

initialize_worker-KeepsWorker : (s : Supervisor) → KeepsWorker s (initialize_worker s)
unfolding initialize_worker
initialize_worker-KeepsWorker s =
    let (f, t, r) = request_initialize-KeepsWorker s in
    elim r [
      | inr (x, e) ↦ rw (e, initialize_worker) (f, t, inr (x, refl))
      | inl (runtime, e, c) ↦
          elim (Bool-cases (runtime.protocol_version == worker_protocol_version)) [
            | inl v ↦ rw (e, initialize_worker) (rw v (f, t, inl (tt, refl, c)))
            | inr v ↦ rw (e, initialize_worker) (rw v (f, t, inr (_, refl)))
          ]
    ]

-- The worker that is current and alive.
abbrev pub live_workers : Option Child → List ℕ
live_workers none = []
live_workers (some c) = if c.is_live then c.number ∷ [] else []

-- The worker that a state had is signalled; a new one is current, or none is.
abbrev pub IsReplaced : Supervisor → Supervisor → Type 0
IsReplaced s s' =
    (s'.child ≡ some (record { number = s.forked; is_live = true }))
    × (s'.forked ≡ s.forked + 1)
    × (s'.terminated ≡ s.terminated ++ live_workers s.child)

abbrev pub IsEnded : Supervisor → Supervisor → Type 0
IsEnded s s' =
    (s'.child ≡ none)
    × ((more : List ℕ) × (s'.terminated ≡ (s.terminated ++ live_workers s.child) ++ more))

signalled-live : (c : Option Child) (ns : List ℕ) → signalled c ns ≡ ns ++ live_workers c
signalled-live none ns = sym (append-nil ns)
signalled-live (some c) ns = elim (Bool-cases c.is_live) [
  | inl e ↦ rw e refl
  | inr e ↦ rw e (sym (append-nil ns))
]

-- Without a current worker.
start_worker-ends :
    (s : Supervisor)
    → (((start_worker s).1 ≡ ok tt)
        × ((start_worker s).0.child ≡ some (record { number = s.forked; is_live = true }))
        × ((start_worker s).0.forked ≡ s.forked + 1)
        × ((start_worker s).0.terminated ≡ s.terminated))
      ⊎ ((t : Thrown) × ((start_worker s).1 ≡ err t)
          × ((start_worker s).0.child ≡ none)
          × ((more : List ℕ) × ((start_worker s).0.terminated ≡ s.terminated ++ more)))
unfolding terminate_worker handle_worker_failure start_worker
start_worker-ends s =
    let (f, t, r) = initialize_worker-KeepsWorker (fork s) in
    elim r [
      | inl (u, e, c) ↦ rw (e, start_worker) (inl (refl, c, f, t))
      | inr (x, e) ↦
          let s1 = (initialize_worker (fork s)).0 in
          let more = live_workers s1.child in
          rw (e, start_worker)
            (inr (
              _,
              refl,
              refl,
              (more, signalled-live s1.child s1.terminated ∙ ap (λ ns. ns ++ more) t),
            ))
    ]

-- A new worker, or none and an error.
abbrev pub Replaces : Supervisor → Supervisor × Outcome Thrown (Unit {0}) → Type 0
Replaces s out =
    ((out.1 ≡ ok tt) × IsReplaced s out.0) ⊎ ((t : Thrown) × (out.1 ≡ err t) × IsEnded s out.0)

ensure_worker-start :
    (s : Supervisor) → s.closing ≡ false → s.child ≡ none → ensure_worker s ≡ start_worker s
unfolding ensure_worker
ensure_worker-start s e c = simp (e, c) refl

-- Of a state whose worker was ended.
ensure_worker-Replaces :
    (s s1 : Supervisor)
    → s1.child ≡ none
    → s1.forked ≡ s.forked
    → s1.terminated ≡ s.terminated ++ live_workers s.child
    → Replaces s (ensure_worker s1)
unfolding ensure_worker
ensure_worker-Replaces s s1 c f t = elim (Bool-cases s1.closing) [
  | inl e ↦
      rw (e, ensure_worker)
        (inr (_, refl, (c, ([], t ∙ sym (append-nil (s.terminated ++ live_workers s.child))))))
  | inr e ↦ subst (Replaces s) (sym (ensure_worker-start s1 e c)) (elim (start_worker-ends s1) [
    | inl (o, c', f', t') ↦ inl (
      o,
      (c' ∙ ap (λ n. some (record { number = n; is_live = true })) f, omega (arith, f, f'), t' ∙ t),
    )
    | inr (x, o, c', (more, t')) ↦ inr (x, o, (c', (more, t' ∙ ap (λ ns. ns ++ more) t)))
  ])
]

adopt-same :
    (host : Host) (s : Supervisor)
    → ((adopt_compatible_fingerprint host s).child ≡ s.child)
      × ((adopt_compatible_fingerprint host s).forked ≡ s.forked)
      × ((adopt_compatible_fingerprint host s).terminated ≡ s.terminated)
unfolding adopt_compatible_fingerprint
adopt-same host s = elim (Option-cases (compatible_update host.runtime_info)) [
  | inl e ↦ rw (e, adopt_compatible_fingerprint) (refl, refl, refl)
  | inr (f, e) ↦ rw (e, adopt_compatible_fingerprint) (refl, refl, refl)
]

-- `replaceWorker` ends the worker that there is, and then a new one is current, or it throws.
pub replace_worker-Replaces : (host : Host) (s : Supervisor) → Replaces s (replace_worker host s)
unfolding replace_worker terminate_worker handle_worker_failure
replace_worker-Replaces host s =
    let (c, f, t) = adopt-same host (terminate_worker s) in
    ensure_worker-Replaces s (adopt_compatible_fingerprint host (terminate_worker s)) c f
      (t ∙ signalled-live s.child s.terminated)
