-- ===== src/Lounge/Progress.antt =====
-- Deliveries only move forward: pending, delivered, seen, acted; and a time that was stamped stays.
use stage5_browser.Base.{
  ℕ, ◌≤◌, ◌≡◌, refl, sym, ◌∙◌, Bool, true, false, Option, none, some, List, [], ◌∷◌, ◌++◌, arith,
  Bool-cases, &&-eq-true, inl, inr,
}
use stage5_browser.Text.{Text, text_eq_iff}
use stage5_browser.Table.{find, update}
use stage5_browser.Table.Laws.{find-update-some, find-append_some, find-holds}
use stage5_browser.Lounge.{Store, Host, Setup, SessionRow, DeliveryRow, DeliveryState}
use stage5_browser.Lounge.Model.{delivery_rank}
use stage5_browser.Lounge.Messages.{is_delivery}
use stage5_browser.Lounge.Messages.Send.{new_delivery}
use stage5_browser.Lounge.Messages.Claim.{is_claimable, is_claimable_delivery, marked_delivered}
use stage5_browser.Lounge.Messages.Ack.{AckState, select_delivery, next_state, same_state, marked}
use stage5_browser.Lounge.Preserves.{Preserved}
use stage5_browser.Lounge.Preserves.Requests.{serve_induction}
use stage5_browser.Lounge.Service.{Request, serve}

-- A time that is set stays as it is.
abbrev pub Stays : Option ℕ → Option ℕ → Type 0
Stays none b = Unit {0}
Stays (some t) b = b ≡ some t

-- The second row is a later state of the first.
pub record Follows (d e : DeliveryRow) : Type 0 where
  pub message : e.message_id ≡ d.message_id
  pub recipient : e.recipient_agent_id ≡ d.recipient_agent_id
  pub rank : delivery_rank d.state ≤ delivery_rank e.state
  pub attempts : d.delivery_attempts ≤ e.delivery_attempts
  pub first_delivered : Stays d.delivered_at_ms e.delivered_at_ms
  pub first_seen : Stays d.seen_at_ms e.seen_at_ms
  pub first_acted : Stays d.acted_at_ms e.acted_at_ms

Follows-refl : (d : DeliveryRow) → Follows d d
Follows-refl d = ground arith

Follows-trans : (d e f : DeliveryRow) → Follows d e → Follows e f → Follows d f
Follows-trans d e f h k = ground arith

Follows-claim :
    (now : ℕ) (d : DeliveryRow) → is_claimable d.state ≡ true → Follows d (marked_delivered now d)
unfolding is_claimable delivery_rank
Follows-claim now d h = ground arith

Follows-ack :
    (requested : AckState) (now : ℕ) (d : DeliveryRow)
    → same_state (next_state requested d.state) d.state ≡ false
    → Follows d (marked (next_state requested d.state) now d)
unfolding next_state same_state marked delivery_rank
Follows-ack requested now d h = ground arith

-- Every delivery that is in the first table is in the second one, in the same or a later state.
pub record Advance (ds es : List DeliveryRow) : Type 0 where
  pub at :
      (id agent : Text) (d : DeliveryRow)
      → find (is_delivery id agent) ds ≡ some d
      → (e : DeliveryRow) × (find (is_delivery id agent) es ≡ some e) × Follows d e

Advance-refl : (ds : List DeliveryRow) → Advance ds ds
Advance-refl ds = record { at = λ id agent d f. (d, f, Follows-refl d) }

-- One step on the row that was reached.
Advance-step :
    (ds es fs : List DeliveryRow)
    → ((id agent : Text) (e : DeliveryRow)
        → find (is_delivery id agent) es ≡ some e
        → (f : DeliveryRow) × (find (is_delivery id agent) fs ≡ some f) × Follows e f)
    → Advance ds es
    → Advance ds fs
Advance-step ds es fs h a = record {
  at = λ id agent d p.
      let (e, q, k) = a.at id agent d p in
      let (f, r, l) = h id agent e q in (f, r, Follows-trans d e f k l);
}

Advance-append : (ds es fs : List DeliveryRow) → Advance ds es → Advance ds (es ++ fs)
Advance-append ds es fs =
    Advance-step ds es (es ++ fs)
      (λ id agent e q. (e, find-append_some (is_delivery id agent) es fs e q, Follows-refl e))

Advance-update :
    (ds es : List DeliveryRow) (q : DeliveryRow → Bool) (f : DeliveryRow → DeliveryRow)
    → ((id agent : Text) (e : DeliveryRow) → is_delivery id agent (f e) ≡ is_delivery id agent e)
    → ((id agent : Text) (e : DeliveryRow)
        → find (is_delivery id agent) es ≡ some e
        → q e ≡ true
        → Follows e (f e))
    → Advance ds es
    → Advance ds (update q f es)
Advance-update ds es q f keys h = Advance-step ds es (update q f es) λ id agent e p.
    elim (Bool-cases (q e)) [
      | inl yes' ↦ (
        f e,
        rw (find-update-some q f (is_delivery id agent) es e (keys id agent) p) (rw yes' refl),
        h id agent e p yes',
      )
      | inr no' ↦ (
        e,
        rw (find-update-some q f (is_delivery id agent) es e (keys id agent) p) (rw no' refl),
        Follows-refl e,
      )
    ]

-- Rows with the same key are found by the same key.
same_key :
    (id agent j b : Text) (es : List DeliveryRow) (e : DeliveryRow)
    → find (is_delivery j b) es ≡ some e
    → is_delivery id agent e ≡ true
    → find (is_delivery id agent) es ≡ some e
same_key id agent j b es e p k =
    let (j', b') = &&-eq-true _ _ (find-holds (is_delivery j b) es e p) in
    let (i', a') = &&-eq-true _ _ k in
    rw ((text_eq_iff id e.message_id).0 i', (text_eq_iff agent e.recipient_agent_id).0 a')
      (rw ((text_eq_iff j e.message_id).0 j', (text_eq_iff b e.recipient_agent_id).0 b') at p)

found-select :
    (id : Text) (session : SessionRow) (s : Store) (d : DeliveryRow)
    → select_delivery id session s ≡ some d
    → find (is_delivery id session.agent_id) s.deliveries ≡ some d
unfolding select_delivery
found-select id session s d h = ground arith

marked_keys :
    (state : DeliveryState) (now : ℕ) (id agent : Text) (e : DeliveryRow)
    → is_delivery id agent (marked state now e) ≡ is_delivery id agent e
unfolding marked
marked_keys state now id agent e = ground arith

Advance-Preserved : (ds : List DeliveryRow) → Preserved (λ s. Advance ds s.deliveries)
Advance-Preserved ds = record {
  on_join = λ i host now lease s v free. v;
  on_heartbeat = λ id state now lease s v. v;
  on_close = λ id now s v. v;
  on_message = λ session i hash id now s v free. v;
  on_delivery = λ id now a s v free. Advance-append ds s.deliveries (new_delivery id now a ∷ []) v;
  on_claim = λ id agent now s v.
      Advance-update ds s.deliveries (is_claimable_delivery id agent) (marked_delivered now)
        (λ j b e. refl) (λ j b e p k. Follows-claim now e (&&-eq-true _ _ k).1) v;
  on_ack = λ id session requested d now s v found changed.
      Advance-update ds s.deliveries (is_delivery id session.agent_id)
        (marked (next_state requested d.state) now) (marked_keys (next_state requested d.state) now)
        (λ j b e p k.
          let same : some e ≡ some d =
            sym (same_key id session.agent_id j b s.deliveries e p k)
            ∙ found-select id session s d found in
          let eq : e ≡ d = ground arith in rw eq (Follows-ack requested now d changed))
        v;
  on_pin = λ session key hash content now s v free. v;
  on_note = λ session key hash note now s v free. v;
  on_audit = λ session id before after n now s v. v;
}

serve-Advance :
    (setup : Setup) (s : Store) (rs : List (Host × Request))
    → Advance s.deliveries (serve setup s rs).deliveries
serve-Advance setup s rs =
    serve_induction (λ t. Advance s.deliveries t.deliveries) (Advance-Preserved s.deliveries) setup
      s rs (Advance-refl s.deliveries)

-- Whatever requests follow, a delivery is not lost and does not go back to an earlier state, its
-- attempts do not fall, and the first times at which it was delivered, seen and acted on stay.
pub serve-Follows :
    (setup : Setup) (s : Store) (rs : List (Host × Request)) (id agent : Text) (d : DeliveryRow)
    → find (is_delivery id agent) s.deliveries ≡ some d
    → (e : DeliveryRow) × (find (is_delivery id agent) (serve setup s rs).deliveries ≡ some e)
      × Follows d e
serve-Follows setup s rs = (serve-Advance setup s rs).at
