-- ===== src/Lounge/Fencing.antt =====
-- Sessions: at most one is open for each identity of a room, and a join fences the older ones.
pub mod Joins
use stage5_browser.Base.{
  ℕ, ◌+◌, ◌≤◌, ◌≡◌, refl, Bool, true, false, ◌&&◌, none, some, List, [], ◌∷◌, ◌++◌, if◌then◌else◌,
  arith, Bool-cases, &&-eq-true, inl, inr,
}
use stage5_browser.Text.{Text, text_eq, text_eq_iff, text_eq_refl}
use stage5_browser.Table.{find, update, matches, exists}
use stage5_browser.Table.Laws.{
  matches-append, matches-exists_false, matches-update_same, matches-update_le, matches-update_all,
  find-update-some, find-append_some, find-append_none, find-exists_false,
}
use stage5_browser.Effect.{ok, err, or_throw}
use stage5_browser.Effect.Rules.{reader_rules}
use stage5_browser.Effect.Ensures.{Ensures, Ensures-read, Ensures-transaction}
use stage5_browser.Lounge.{Store, session_closed, Host, Setup, SessionRow, SessionState, empty}
use stage5_browser.Lounge.Sessions.{
  JoinInput, JoinResult, join, join_rows, require_session, is_open_for, is_open_with, has_id,
  superseded, new_session, beaten, closed_at,
}
use stage5_browser.Lounge.Preserves.{Preserved, after_join}
use stage5_browser.Lounge.Preserves.Requests.{serve_induction}
use stage5_browser.Lounge.Service.{Request, serve}

-- No identity of a room has two open sessions, and no id is taken twice.
pub record AreFenced (rs : List SessionRow) : Type 0 where
  pub open_once : (l a : Text) → matches (is_open_for l a) rs ≤ 1
  pub id_once : (id : Text) → matches (has_id id) rs ≤ 1

-- Whether a session that was superseded or closed is open.
not_open-superseded :
    (now : ℕ) (l a : Text) (r : SessionRow) → is_open_for l a (superseded now r) ≡ false
not_open-superseded now l a r = ground arith

not_open-closed :
    (now : ℕ) (l a : Text) (r : SessionRow) → is_open_for l a (closed_at now r) ≡ false
not_open-closed now l a r = ground arith

matches-new :
    (l a : Text) (i : JoinInput) (host : Host) (now lease : ℕ)
    → matches (is_open_for l a) (new_session i host now lease ∷ [])
      ≡ (if text_eq l i.lounge_id && text_eq a i.agent_id then 1 else 0)
unfolding matches
matches-new l a i host now lease = ground arith

matches-superseded :
    (l a : Text) (now : ℕ) (rs : List SessionRow)
    → matches (is_open_for l a) (update (is_open_for l a) (superseded now) rs) ≡ 0
matches-superseded l a now rs =
    matches-update_all _ _ _ rs (λ r h. h) (λ r h. not_open-superseded now l a r)

matches-superseded_le :
    (l a l' a' : Text) (now : ℕ) (rs : List SessionRow)
    → matches (is_open_for l a) (update (is_open_for l' a') (superseded now) rs)
      ≤ matches (is_open_for l a) rs
matches-superseded_le l a l' a' now rs =
    matches-update_le _ _ _ rs (λ r h k. ground (arith, not_open-superseded now l a r))

-- The open sessions of any identity after the rows of a join: one for the identity that joined.
pub matches-join :
    (l a : Text) (i : JoinInput) (host : Host) (now lease : ℕ) (rs : List SessionRow)
    → matches (is_open_for l a) (
        update (is_open_for i.lounge_id i.agent_id) (superseded now) rs
        ++ new_session i host now lease ∷ [])
      ≤ (if text_eq l i.lounge_id && text_eq a i.agent_id then 1 else matches (is_open_for l a) rs)
matches-join l a i host now lease rs =
    elim (Bool-cases (text_eq l i.lounge_id && text_eq a i.agent_id)) [
      | inl e ↦
          let (p, q) = &&-eq-true (text_eq l i.lounge_id) (text_eq a i.agent_id) e in
          let none_left : matches (is_open_for l a) old ≡ 0 =
            rw ((text_eq_iff l i.lounge_id).0 p, (text_eq_iff a i.agent_id).0 q)
              (matches-superseded i.lounge_id i.agent_id now rs) in
          rw (e, split) (rw (matches-new l a i host now lease) (rw e (omega (arith, none_left))))
      | inr e ↦
          rw (e, split)
            (rw (matches-new l a i host now lease)
              (rw e (omega (arith, matches-superseded_le l a i.lounge_id i.agent_id now rs))))
    ]
  where
    old : List SessionRow
    old = update (is_open_for i.lounge_id i.agent_id) (superseded now) rs

    split :
        matches (is_open_for l a) (old ++ new_session i host now lease ∷ [])
        ≡ matches (is_open_for l a) old
          + matches (is_open_for l a) (new_session i host now lease ∷ [])
    split = matches-append (is_open_for l a) old (new_session i host now lease ∷ [])

ids-join :
    (id : Text) (i : JoinInput) (host : Host) (now lease : ℕ) (rs : List SessionRow)
    → AreFenced rs
    → exists (has_id host.uuid) (update (is_open_for i.lounge_id i.agent_id) (superseded now) rs)
      ≡ false
    → matches (has_id id) (
        update (is_open_for i.lounge_id i.agent_id) (superseded now) rs
        ++ new_session i host now lease ∷ [])
      ≤ 1
unfolding matches
ids-join id i host now lease rs v free = elim (Bool-cases (text_eq id host.uuid)) [
  | inl e ↦
      let z : matches (has_id id) old ≡ 0 =
        rw ((text_eq_iff id host.uuid).0 e) (matches-exists_false _ old free) in
      rw split (rw e (omega (arith, z)))
  | inr e ↦ rw split (rw e (omega (arith, kept, v.id_once id)))
]
  where
    old : List SessionRow
    old = update (is_open_for i.lounge_id i.agent_id) (superseded now) rs

    split :
        matches (has_id id) (old ++ new_session i host now lease ∷ [])
        ≡ matches (has_id id) old + matches (has_id id) (new_session i host now lease ∷ [])
    split = matches-append (has_id id) old (new_session i host now lease ∷ [])

    kept : matches (has_id id) old ≡ matches (has_id id) rs
    kept = matches-update_same _ _ _ rs (λ r. refl)

module _ (s : Store) (v : AreFenced s.sessions) where
  AreFenced-heartbeat :
      (id : Text) (state : SessionState) (now lease : ℕ)
      → AreFenced (update (is_open_with id) (beaten state now lease) s.sessions)
  AreFenced-heartbeat id state now lease = record {
    open_once = λ l a.
        rw
          (matches-update_same (is_open_with id) (beaten state now lease) (is_open_for l a)
            s.sessions (λ r. refl))
          (v.open_once l a);
    id_once = λ j.
        rw
          (matches-update_same (is_open_with id) (beaten state now lease) (has_id j) s.sessions
            (λ r. refl))
          (v.id_once j);
  }

  AreFenced-close :
      (id : Text) (now : ℕ) → AreFenced (update (is_open_with id) (closed_at now) s.sessions)
  AreFenced-close id now = record {
    open_once = λ l a. omega (
      arith,
      v.open_once l a,
      matches-update_le (is_open_with id) (closed_at now) (is_open_for l a) s.sessions
          (λ r h k. ground (arith, not_open-closed now l a r)),
    );
    id_once = λ j.
        rw (matches-update_same (is_open_with id) (closed_at now) (has_id j) s.sessions (λ r. refl))
          (v.id_once j);
  }

AreFenced-Preserved : Preserved (λ s. AreFenced s.sessions)
AreFenced-Preserved = record {
  on_join = λ i host now lease s v free. record {
    open_once =
        λ l a. ground (arith, matches-join l a i host now lease s.sessions, v.open_once l a);
    id_once = λ id. ids-join id i host now lease s.sessions v free;
  };
  on_heartbeat = λ id state now lease s v. AreFenced-heartbeat s v id state now lease;
  on_close = λ id now s v. AreFenced-close s v id now;
  on_message = λ session i hash id now s v free. v;
  on_delivery = λ id now a s v free. v;
  on_claim = λ id agent now s v. v;
  on_ack = λ id session requested d now s v found changed. v;
  on_pin = λ session key hash content now s v free. v;
  on_note = λ session key hash note now s v free. v;
  on_audit = λ session id before after n now s v. v;
}

-- Whatever requests the clients of a new store make, and whatever they throw, no identity of a room
-- ever has two open sessions, and no session id is taken twice.
pub serve-AreFenced :
    (setup : Setup) (rs : List (Host × Request)) → AreFenced (serve setup empty rs).sessions
unfolding matches
serve-AreFenced setup rs =
    serve_induction (λ s. AreFenced s.sessions) AreFenced-Preserved setup empty rs
      (record { open_once = λ l a. omega arith; id_once = λ id. omega arith })
