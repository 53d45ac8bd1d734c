-- ===== src/Operations/Journal/Later.antt =====
-- The journal of src/operation-journal.ts: what is found of a record after later appends.
use stage5_browser.Base.{ℕ, ◌<◌, ◌≡◌, sym, ◌∙◌, ap, false, some, List, [], ◌∷◌, ◌++◌}
use mathlib.Core.List.{append_assoc}
use stage5_browser.Text.{Text, text_eq, trim_end}
use stage5_browser.Operations.{JournalRecord}
use stage5_browser.Operations.Journal.{
  Codec, JournalFile, written, newline, compacted, text_of, safe_record, append, max_journal_bytes,
}
use stage5_browser.Operations.Journal.Lookup.{IsWritable, trim_line}

-- The file is a text with a line end, which is all that `trimEnd` takes off.
record HasLine (f : JournalFile) : Type 0 where
  body : Text
  contents_are : f.contents ≡ some (body ++ newline ∷ [])
  trimmed : trim_end (body ++ newline ∷ []) ≡ body

append-HasLine :
    (codec : Codec) (size : ℕ) (r : JournalRecord) (f : JournalFile)
    → IsWritable codec r
    → HasLine (append codec written size r f).0
unfolding append
append-HasLine codec size r f w =
    let s = compacted size (text_of f.contents) in
    let l = codec.encode (safe_record codec r) in
    record {
      body = s ++ l;
      contents_are = ap some (sym (append_assoc s l (newline ∷ [])));
      trimmed = ap trim_end (append_assoc s l (newline ∷ [])) ∙ trim_line codec r s w;
    }

-- An append of a record of another id that finds the file below the limit: its size, and its record.
abbrev pub IsOther : Codec → Text → ℕ × JournalRecord → Type 0
IsOther codec id x =
    (x.0 < max_journal_bytes) × IsWritable codec x.1 × (text_eq x.1.operation_id id ≡ false)
