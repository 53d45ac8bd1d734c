-- ===== src/Lounge/Revisions/Race.antt =====
-- Two pins of src/lounge/store/notices.ts that expect the same revision.
use stage5_browser.Base.{
  ℕ, ◌≤◌, ◌≡◌, sym, ap, subst, ◌∙◌, true, false, Option, List, arith, Bool-cases, inl, inr,
}
use stage5_browser.Text.{Text, text_eq, text_eq_iff}
use stage5_browser.Effect.{ok}
use stage5_browser.Lounge.{Store, Host, Setup, SessionRow}
use stage5_browser.Lounge.Model.{safe_nat}
use stage5_browser.Lounge.Notices.{PinInput, PinResult, pin, current_notice}
use stage5_browser.Lounge.Preserves.{Preserved, after_pin}
use stage5_browser.Lounge.Preserves.Requests.{serve_induction}
use stage5_browser.Lounge.Service.{Request, serve}
use stage5_browser.Lounge.Revisions.{pin_applies, current_notice-pin, current_notice-pin_other}

-- The revision of a room's notice never falls.
AtLeast : Text → ℕ → Store → Type 0
AtLeast lounge n s = n ≤ (current_notice lounge s).notice_revision

AtLeast-pin :
    (lounge : Text) (m : ℕ) (session : SessionRow) (key hash : Text) (content : Option Text)
    (n now : ℕ) (s : Store)
    → (current_notice session.lounge_id s).notice_revision ≤ n
    → m ≤ (current_notice lounge s).notice_revision
    → m ≤ (current_notice lounge (after_pin session key hash content n now s)).notice_revision
AtLeast-pin lounge m session key hash content n now s le h =
    elim (Bool-cases (text_eq lounge session.lounge_id)) [
      | inr e ↦ rw (current_notice-pin_other lounge session key hash content n now s e) h
      | inl e ↦
          let same = (text_eq_iff lounge session.lounge_id).0 e in
          let bound : m ≤ (current_notice session.lounge_id s).notice_revision =
            subst (λ l. m ≤ (current_notice l s).notice_revision) same h in
          rw same (rw (current_notice-pin session key hash content n now s) (omega arith))
    ]

AtLeast-Preserved : (lounge : Text) (m : ℕ) → Preserved (AtLeast lounge m)
unfolding AtLeast current_notice
AtLeast-Preserved lounge m = record {
  on_join = λ i host now lease s p free. p;
  on_heartbeat = λ id state now lease s p. p;
  on_close = λ id now s p. p;
  on_message = λ session i hash id now s p free. p;
  on_delivery = λ id now a s p free. p;
  on_claim = λ id agent now s p. p;
  on_ack = λ id session requested d now s p f k. p;
  on_pin = λ session key hash content now s p free.
      AtLeast-pin lounge m session key hash content _ now s (omega arith) p;
  on_note = λ session key hash note now s p free. p;
  on_audit = λ session id before after n now s p. p;
}

-- Of two pins of one room that expect the same revision at most one is applied, whatever requests
-- come between them: once the first was applied, the second is not.
pub pins_race :
    (setup : Setup) (host host' : Host) (i j : PinInput) (rs : List (Host × Request)) (s : Store)
    (r q : PinResult)
    → (pin setup host i s).1 ≡ ok r
    → r.duplicate ≡ false
    → (pin setup host' j (serve setup (pin setup host i s).0 rs)).1 ≡ ok q
    → q.lounge_id ≡ r.lounge_id
    → safe_nat j.expected_revision ≡ safe_nat i.expected_revision
    → q.duplicate ≡ true
unfolding AtLeast
pins_race setup host host' i j rs s r q h d k l e = elim (Bool-cases q.duplicate) [
  | inl b ↦ b
  | inr b ↦
      let first = pin_applies setup host i s r h d in
      let t = (pin setup host i s).0 in
      let later = serve setup t rs in
      let second = pin_applies setup host' j later q k b in
      let kept : (current_notice r.lounge_id t).notice_revision
          ≤ (current_notice r.lounge_id later).notice_revision =
        serve_induction (AtLeast r.lounge_id (current_notice r.lounge_id t).notice_revision)
          (AtLeast-Preserved r.lounge_id (current_notice r.lounge_id t).notice_revision) setup t rs
          (omega arith) in
      let place : (current_notice q.lounge_id later).notice_revision
          ≡ (current_notice r.lounge_id later).notice_revision =
        ap (λ x. (current_notice x later).notice_revision) l in
      let expected = sym second.expected ∙ e ∙ first.expected in
      let grown = first.advanced in absurd (ground arith)
]
