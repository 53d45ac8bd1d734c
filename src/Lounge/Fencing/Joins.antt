-- ===== src/Lounge/Fencing/Joins.antt =====
-- What a join of src/lounge/store/sessions.ts does to the sessions of its identity.
use stage5_browser.Base.{ℕ, ◌≡◌, refl, Bool, true, false, none, some, List, [], ◌∷◌, ◌++◌, arith}
use stage5_browser.Text.{Text, text_eq_refl}
use stage5_browser.Table.{find, update, matches, exists}
use stage5_browser.Table.Laws.{
  matches-append, find-update-some, find-append_some, find-append_none, find-exists_false,
}
use stage5_browser.Effect.{ok, err, or_throw}
use stage5_browser.Effect.Rules.{reader_rules}
use stage5_browser.Effect.Ensures.{Ensures, Ensures-read, Ensures-transaction}
use stage5_browser.Lounge.{Store, session_closed, Host, SessionRow}
use stage5_browser.Lounge.Sessions.{
  JoinInput, JoinResult, join, join_rows, require_session, is_open_for, has_id, superseded,
  new_session,
}
use stage5_browser.Lounge.Preserves.{after_join}
use stage5_browser.Lounge.Fencing.{matches-new, matches-superseded}

-- `requireSession` of a session that is there and closed.
pub require_session-closed :
    (id : Text) (s : Store) (r : SessionRow) (t : ℕ)
    → find (has_id id) s.sessions ≡ some r
    → r.closed_at_ms ≡ some t
    → require_session id s ≡ (s, err session_closed)
unfolding require_session
require_session-closed id s r t f c = rw (f, or_throw) (ground arith)

-- What a join that returns has done.
record Joined (host : Host) (i : JoinInput) (s : Store) (r : JoinResult) (t : Store) : Type 0 where
  now : ℕ
  lease : ℕ
  rows : t ≡ after_join i host now lease s
  session : r.session_id ≡ host.uuid
  count : r.superseded_session_count ≡ matches (is_open_for i.lounge_id i.agent_id) s.sessions
  free :
      exists
        (has_id host.uuid)
        (update (is_open_for i.lounge_id i.agent_id) (superseded now) s.sessions)
      ≡ false

join_rows-Joined :
    (host : Host) (i : JoinInput) (now lease : ℕ)
    → Ensures (Joined host i) (join_rows i host now lease)
unfolding join_rows
join_rows-Joined host i now lease = record {
  at = λ s r h. record {
    now = now;
    lease = lease;
    rows = ground arith;
    session = ground arith;
    count = ground arith;
    free = ground arith;
  };
}

join-Joined : (host : Host) (i : JoinInput) → Ensures (Joined host i) (join host i)
unfolding join
join-Joined host i =
    search (Ensures-read, Ensures-transaction, reader_rules, join_rows-Joined) depth 30

matches-join_self :
    (i : JoinInput) (host : Host) (now lease : ℕ) (rs : List SessionRow)
    → matches (is_open_for i.lounge_id i.agent_id) (
        update (is_open_for i.lounge_id i.agent_id) (superseded now) rs
        ++ new_session i host now lease ∷ [])
      ≡ 1
matches-join_self i host now lease rs =
    rw (matches-append p old (new_session i host now lease ∷ [])) (
      rw (matches-superseded i.lounge_id i.agent_id now rs) (
        rw (matches-new i.lounge_id i.agent_id i host now lease)
          (rw (text_eq_refl i.lounge_id) (rw (text_eq_refl i.agent_id) (omega arith)))))
  where
    p : SessionRow → Bool
    p = is_open_for i.lounge_id i.agent_id

    old : List SessionRow
    old = update p (superseded now) rs

-- The row that a lookup by id finds after a join.
find-join_old :
    (id : Text) (i : JoinInput) (host : Host) (now lease : ℕ) (rs : List SessionRow)
    (x : SessionRow)
    → find (has_id id) rs ≡ some x
    → is_open_for i.lounge_id i.agent_id x ≡ true
    → find (has_id id) (
        update (is_open_for i.lounge_id i.agent_id) (superseded now) rs
        ++ new_session i host now lease ∷ [])
      ≡ some (superseded now x)
find-join_old id i host now lease rs x f o =
    find-append_some (has_id id) (update (is_open_for i.lounge_id i.agent_id) (superseded now) rs)
      (new_session i host now lease ∷ []) (superseded now x)
      (rw
        (find-update-some (is_open_for i.lounge_id i.agent_id) (superseded now) (has_id id) rs x
          (λ r. refl) f)
        (rw o refl))

find-join_new :
    (i : JoinInput) (host : Host) (now lease : ℕ) (rs : List SessionRow)
    → exists (has_id host.uuid) (update (is_open_for i.lounge_id i.agent_id) (superseded now) rs)
      ≡ false
    → find (has_id host.uuid) (
        update (is_open_for i.lounge_id i.agent_id) (superseded now) rs
        ++ new_session i host now lease ∷ [])
      ≡ some (new_session i host now lease)
unfolding find
find-join_new i host now lease rs free =
    rw
      (find-append_none (has_id host.uuid) _ (new_session i host now lease ∷ [])
        (find-exists_false _ _ free))
      (rw (text_eq_refl host.uuid) refl)

pub require_session-open :
    (id : Text) (s : Store) (r : SessionRow)
    → find (has_id id) s.sessions ≡ some r
    → r.closed_at_ms ≡ none
    → require_session id s ≡ (s, ok r)
unfolding require_session
require_session-open id s r f c = rw (f, or_throw) (ground arith)

-- A join that returns leaves its identity with exactly one open session, the new one, whose id is
-- then accepted for the room and the agent that joined, and it counts the sessions that it closed.
pub join_opens_one :
    (host : Host) (i : JoinInput) (s : Store) (r : JoinResult)
    → (join host i s).1 ≡ ok r
    → (matches (is_open_for i.lounge_id i.agent_id) (join host i s).0.sessions ≡ 1)
      × ((x : SessionRow) × (require_session r.session_id (join host i s).0
            ≡ ((join host i s).0, ok x))
          × (x.lounge_id ≡ i.lounge_id)
          × (x.agent_id ≡ i.agent_id))
      × (r.superseded_session_count ≡ matches (is_open_for i.lounge_id i.agent_id) s.sessions)
join_opens_one host i s r h = rw d.rows (
  matches-join_self i host d.now d.lease s.sessions,
  (
    new_session i host d.now d.lease,
    rw d.session
        (require_session-open _ _ _ (find-join_new i host d.now d.lease s.sessions d.free) refl),
    refl,
    refl,
  ),
  d.count,
)
  where
    d : Joined host i s r (join host i s).0
    d = (join-Joined host i).at s r h

-- A join fences the older sessions of its identity: after it returns, `requireSession` of a session
-- which was open for that identity throws that the session is closed.
pub join_fences :
    (host : Host) (i : JoinInput) (s : Store) (r : JoinResult) (id : Text) (x : SessionRow)
    → (join host i s).1 ≡ ok r
    → find (has_id id) s.sessions ≡ some x
    → is_open_for i.lounge_id i.agent_id x ≡ true
    → require_session id (join host i s).0 ≡ ((join host i s).0, err session_closed)
join_fences host i s r id x h f o = rw d.rows (
    require_session-closed id _ _ d.now (find-join_old id i host d.now d.lease s.sessions x f o)
      refl)
  where
    d : Joined host i s r (join host i s).0
    d = (join-Joined host i).at s r h
