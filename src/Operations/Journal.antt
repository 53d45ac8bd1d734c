-- ===== src/Operations/Journal.antt =====
-- src/operation-journal.ts: a file with one JSON line for each operation that ended. The file is its
-- text, absent before the first append; JSON and the URL policy are parameters.
pub mod Lookup
pub mod Later
use stage5_browser.Base.{
  ℕ, suc, ◌+◌, ◌-◌, ◌*◌, Bool, true, false, Option, none, some, List, [], ◌∷◌, ◌++◌, reverse, ltb,
  ◌==◌, if◌then◌else◌, length, drop, take,
}
use stage5_browser.Text.{Text, text_eq, trim_end, split_lines}
use stage5_browser.Effect.{Exec, pure, throw, gets, modify, ◌>>=◌, ◌>>◌}
use stage5_browser.Operations.{JournalRecord}

-- `JSON.stringify`; `JSON.parse` with the tests of the fields' types (none if it throws or a test
-- fails); and `sanitizeUrlForJournal`.
pub record Codec : Type 0 where
  pub encode : JournalRecord → Text
  pub decode : Text → Option JournalRecord
  pub sanitize : Option Text → Option Text

pub record JournalFile : Type 0 where
  pub contents : Option Text

-- What the file system does with an append: it is written, or throws before a change of the file, or
-- throws after so many characters.
pub data Write : Type 0 where
  written refused : Write
  fails_after : ℕ → Write

pub data IoFault : Type 0 where
  io_fault : IoFault

abbrev pub newline : ℕ
newline = 10

abbrev pub max_journal_bytes : ℕ
max_journal_bytes = 4 * 1024 * 1024

abbrev pub retained_journal_bytes : ℕ
retained_journal_bytes = 2 * 1024 * 1024

-- `s.slice(s.indexOf('\n') + 1)`, and the empty text if there is no line end.
unfoldable pub after_line : Text → Text
after_line [] = []
after_line (c ∷ cs) = if c == newline then cs else after_line cs

-- The lines that a compaction keeps of a text whose length is the second argument. A text that is
-- within the limit by its characters, and past it by its bytes, is dropped whole: the first complete
-- line is at 0 there, and the source takes 0 to mean that there is none.
unfoldable pub retained : Text → ℕ → Text
unfolding after_line
retained s n =
    if n - retained_journal_bytes == 0 then [] else after_line (drop (n - retained_journal_bytes) s)

-- `compactIfNeeded`. `size` is the file's size in bytes.
unfoldable pub compacted : ℕ → Text → Text
unfolding retained
compacted size s = if ltb size max_journal_bytes then s else retained s (length s)

abbrev pub text_of : Option Text → Text
text_of none = []
text_of (some s) = s

-- The record that is written: its URL has no query, fragment or credentials.
abbrev pub safe_record : Codec → JournalRecord → JournalRecord
safe_record codec r = record r { current_url = codec.sanitize r.current_url }

abbrev pub line : Codec → JournalRecord → Text
line codec r = codec.encode (safe_record codec r) ++ newline ∷ []

-- `append`
unfoldable pub append : Codec → Write → ℕ → JournalRecord → Exec JournalFile IoFault (Unit {0})
unfolding ◌>>=◌ compacted
append codec written size r =
    modify λ f. record { contents = some (compacted size (text_of f.contents) ++ line codec r) }
append codec refused size r = throw io_fault
append codec (fails_after n) size r = do
  modify
      λ f. record { contents = some (compacted size (text_of f.contents) ++ take n (line codec r)) }
  throw io_fault

-- The loop of `find`, from the last line.
unfoldable pub find_line : Codec → Text → List Text → Option JournalRecord
unfolding text_eq
find_line codec id [] = none
find_line codec id (l ∷ ls) = elim (codec.decode l) [
  | none ↦ find_line codec id ls
  | some r ↦ if text_eq r.operation_id id then some r else find_line codec id ls
]

-- `find`
unfoldable pub find_record : Codec → Text → JournalFile → Option JournalRecord
unfolding find_line trim_end split_lines
find_record codec id f = elim f.contents [
  | none ↦ none
  | some s ↦ find_line codec id (reverse (split_lines (trim_end s)))
]
