-- ===== src/Lounge/Preserves/Boards.antt =====
-- The operations on notices, work notes and the history keep what their changes of the tables keep.
use stage5_browser.Base.{ℕ, ◌+◌, ◌≡◌, Option, none, some, arith, Bool-cases, inl, inr, ◌==◌}
use stage5_browser.Text.{Text, text_eq}
use stage5_browser.Table.{find, exists}
use stage5_browser.Effect.{ok, guard}
use stage5_browser.Effect.Rules.{Keeps, Keeps-commit, Keeps-transaction, keeps_rules}
use stage5_browser.Lounge.{
  Store, Host, Setup, SessionRow, NoticeMutationRow, WorkNoteMutationRow, WorkNoteFields,
}
use stage5_browser.Lounge.Notices.{
  PinInput, PinResult, notice, pin, pin_rows, pin_or_repeat, has_revision, current_notice,
  is_mutation_of,
}
use stage5_browser.Lounge.WorkNotes.{
  SetWorkNoteInput, SetWorkNoteResult, work_note, set_work_note, set_rows, set_or_repeat,
  has_note_revision, current_work_note, has_key,
}
use stage5_browser.Lounge.History.{HistoryInput, history, history_rows}
use stage5_browser.Lounge.Status.{StatusInput, status}
use stage5_browser.Lounge.Preserves.{Preserved}
use stage5_browser.Lounge.Preserves.Sessions.{require_session-Keeps, require_manager_session-Keeps}

module _ (P : Store → Type 0) (k : Preserved P) where
  pin_or_repeat-commit :
      (o : Option NoticeMutationRow) (session : SessionRow) (key hash : Text)
      (content : Option Text) (expected now : ℕ) (s : Store) (r : PinResult)
      → P s
      → (pin_or_repeat o session key hash content expected now s).1 ≡ ok r
      → P (pin_or_repeat o session key hash content expected now s).0
  unfolding pin_or_repeat
  pin_or_repeat-commit (some m) session key hash content expected now s r p h =
      elim (Bool-cases (text_eq m.payload_hash hash)) [
        | inl e ↦ rw (e, guard) p
        | inr e ↦ rw (e, guard) p
      ]
  pin_or_repeat-commit none session key hash content expected now s r p h =
      elim (Bool-cases ((current_notice session.lounge_id s).notice_revision == expected)) [
        | inr e ↦ rw (e, guard) p
        | inl e ↦
            elim (Bool-cases (
              exists
                (has_revision session.lounge_id
                  ((current_notice session.lounge_id s).notice_revision + 1))
                s.notice_mutations)) [
                  | inl f ↦ absurd (ground arith)
                  | inr f ↦
                      rw (e, guard) (rw (f, guard) (k.on_pin session key hash content now s p f))
                ]
      ]

  pub pin-Keeps : (setup : Setup) (host : Host) (i : PinInput) → Keeps P (pin setup host i)
  unfolding pin pin_rows
  pin-Keeps setup host i =
      let committed =
        λ (session : SessionRow) (key hash : Text) (content : Option Text) (expected now : ℕ).
          Keeps-commit (pin_rows session key hash content expected now) (λ s r p h.
            pin_or_repeat-commit (find (is_mutation_of session key) s.notice_mutations) session key
              hash content expected now s r p h) in
      search (keeps_rules, require_manager_session-Keeps P k, committed) depth 30

  set_or_repeat-commit :
      (o : Option WorkNoteMutationRow) (session : SessionRow) (key hash : Text)
      (note : WorkNoteFields) (expected now : ℕ) (s : Store) (r : SetWorkNoteResult)
      → P s
      → (set_or_repeat o session key hash note expected now s).1 ≡ ok r
      → P (set_or_repeat o session key hash note expected now s).0
  unfolding set_or_repeat
  set_or_repeat-commit (some m) session key hash note expected now s r p h =
      elim (Bool-cases (text_eq m.payload_hash hash)) [
        | inl e ↦ rw (e, guard) p
        | inr e ↦ rw (e, guard) p
      ]
  set_or_repeat-commit none session key hash note expected now s r p h =
      elim (Bool-cases
        ((current_work_note session.lounge_id session.agent_id s).work_note_revision == expected)) [
          | inr e ↦ rw (e, guard) p
          | inl e ↦
              elim (Bool-cases (
                exists
                  (has_note_revision session (
                    (current_work_note session.lounge_id session.agent_id s).work_note_revision
                    + 1))
                  s.work_note_mutations)) [
                    | inl f ↦ absurd (ground arith)
                    | inr f ↦
                        rw (e, guard) (rw (f, guard) (k.on_note session key hash note now s p f))
                  ]
        ]

  pub set_work_note-Keeps :
      (setup : Setup) (host : Host) (i : SetWorkNoteInput) → Keeps P (set_work_note setup host i)
  unfolding set_work_note set_rows
  set_work_note-Keeps setup host i =
      let committed =
        λ (session : SessionRow) (key hash : Text) (note : WorkNoteFields) (expected now : ℕ).
          Keeps-commit (set_rows session key hash note expected now) (λ s r p h.
            set_or_repeat-commit (find (has_key session key) s.work_note_mutations) session key hash
              note expected now s r p h) in
      search (keeps_rules, require_session-Keeps P k, committed) depth 40

  history_rows-Keeps :
      (session : SessionRow) (id : Text) (before after : Option ℕ) (n now : ℕ)
      → Keeps P (history_rows session id before after n now)
  unfolding history_rows
  history_rows-Keeps session id before after n now = record {
    at = λ s p. elim (Bool-cases (exists (λ r. text_eq id r.id) s.history_audits)) [
      | inl e ↦ rw (e, guard) p
      | inr e ↦ rw (e, guard) (k.on_audit session id before after n now s p)
    ];
  }

  pub history-Keeps :
      (setup : Setup) (host : Host) (i : HistoryInput) → Keeps P (history setup host i)
  unfolding history
  history-Keeps setup host i =
      search (keeps_rules, require_manager_session-Keeps P k, Keeps-transaction, history_rows-Keeps)
        depth 40

  pub status-Keeps : (setup : Setup) (host : Host) (i : StatusInput) → Keeps P (status setup host i)
  unfolding status
  status-Keeps setup host i = search (keeps_rules, require_session-Keeps P k) depth 20

  pub notice-Keeps : (id : Text) → Keeps P (notice id)
  unfolding notice
  notice-Keeps id = search (keeps_rules, require_session-Keeps P k) depth 20

  pub work_note-Keeps : (id : Text) → Keeps P (work_note id)
  unfolding work_note
  work_note-Keeps id = search (keeps_rules, require_session-Keeps P k) depth 20
