-- ===== src/Lounge/Preserves/Sessions.antt =====
-- The operations of sessions, one after the other, keep what their changes of the tables keep.
use stage5_browser.Base.{ℕ, ◌≡◌, refl, Bool, true, false, arith}
use stage5_browser.Text.{Text}
use stage5_browser.Table.{update, exists}
use stage5_browser.Effect.{ok, guard}
use stage5_browser.Effect.Rules.{Keeps, Keeps-commit, Keeps-modify, keeps_rules}
use stage5_browser.Lounge.{Store, StoreError, Host, Setup}
use stage5_browser.Lounge.Sessions.{
  JoinInput, JoinResult, HeartbeatInput, CloseSessionInput, join, join_rows, beat, heartbeat,
  close_session, require_session, require_manager_session, is_open_for, is_open_with, has_id,
  superseded, beaten, closed_at, session_state,
}
use stage5_browser.Lounge.Preserves.{Preserved}

module _ (P : Store → Type 0) (k : Preserved P) where
  join_rows-commit :
      (i : JoinInput) (host : Host) (now lease : ℕ) (s : Store) (b : Bool) {r : JoinResult}
      → exists
          (has_id host.uuid)
          (update (is_open_for i.lounge_id i.agent_id) (superseded now) s.sessions)
        ≡ b
      → P s
      → (join_rows i host now lease s).1 ≡ ok r
      → P (join_rows i host now lease s).0
  unfolding join_rows
  join_rows-commit i host now lease s true e p h = absurd (ground arith)
  join_rows-commit i host now lease s false e p h = rw (e, guard) (k.on_join i host now lease s p e)

  pub join-Keeps : (host : Host) (i : JoinInput) → Keeps P (join host i)
  unfolding join
  join-Keeps host i =
      let committed = λ (now lease : ℕ).
        Keeps-commit (join_rows i host now lease)
          (λ s r p h. join_rows-commit i host now lease s _ refl p h) in
      search (keeps_rules, committed) depth 20

  pub require_session-Keeps : (id : Text) → Keeps P (require_session id)
  unfolding require_session
  require_session-Keeps id = search keeps_rules depth 20

  pub require_manager_session-Keeps :
      (setup : Setup) (id : Text) → Keeps P (require_manager_session setup id)
  unfolding require_manager_session
  require_manager_session-Keeps setup id = search (keeps_rules, require_session-Keeps) depth 20

  pub heartbeat-Keeps : (host : Host) (i : HeartbeatInput) → Keeps P (heartbeat host i)
  unfolding heartbeat beat
  heartbeat-Keeps host i =
      let beat = λ (now lease : ℕ).
        Keeps-modify {E = StoreError} {P = P}
          (λ s. record s {
            sessions =
                update (is_open_with i.session_id) (beaten (session_state i.state) now lease)
                  s.sessions;
          })
          (k.on_heartbeat i.session_id (session_state i.state) now lease) in
      search (keeps_rules, require_session-Keeps, beat) depth 20

  pub close_session-Keeps : (host : Host) (i : CloseSessionInput) → Keeps P (close_session host i)
  unfolding close_session
  close_session-Keeps host i =
      let close = λ (now : ℕ).
        Keeps-modify {E = StoreError} {P = P}
          (λ s. record s {
            sessions = update (is_open_with i.session_id) (closed_at now) s.sessions;
          })
          (k.on_close i.session_id now) in
      search (keeps_rules, close) depth 20
