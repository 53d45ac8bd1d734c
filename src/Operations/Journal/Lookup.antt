-- ===== src/Operations/Journal/Lookup.antt =====
-- Reading back what was appended to the journal of src/operation-journal.ts.
use stage5_browser.Base.{
  ℕ, zero, suc, ◌-◌, ◌≡◌, refl, sym, ap, ◌∙◌, inl, inr, false, none, some, List, [], ◌∷◌, ◌++◌,
  reverse, ltb, ◌==◌, if◌then◌else◌, length, drop, Bool-cases,
}
use mathlib.Core.List.{reverse-append, append_assoc}
use stage5_browser.Text.{
  Text, text_eq_refl, trim_end, trim_end-append, is_space, split_lines, before_first,
}
use stage5_browser.Operations.{JournalRecord}
use stage5_browser.Operations.Journal.{
  Codec, JournalFile, written, newline, after_line, retained, compacted, text_of, safe_record, line,
  append, max_journal_bytes, retained_journal_bytes, find_line, find_record,
}

-- A text without a line end.
abbrev pub IsOneLine : Text → Type 0
IsOneLine [] = Unit {0}
IsOneLine (c ∷ cs) = (c == newline ≡ false) × IsOneLine cs

-- A text of whole lines: it is empty, or its last character is a line end.
abbrev pub EndsLine : Text → Type 0
EndsLine [] = Unit {0}
EndsLine (c ∷ []) = c ≡ newline
EndsLine (c ∷ d ∷ cs) = EndsLine (d ∷ cs)

pub split_lines-one : (l : Text) → IsOneLine l → split_lines l ≡ l ∷ []
unfolding split_lines
split_lines-one [] h = refl
split_lines-one (c ∷ cs) (h, k) = rw h (rw (split_lines-one cs k) refl)

pub split_lines-cons :
    (c : ℕ) (s : Text)
    → split_lines (c ∷ s)
      ≡ (if c == newline then [] ∷ split_lines s else before_first c (split_lines s))
unfolding split_lines
split_lines-cons c s = refl

-- A last line that is added to whole lines is the last line of the text.
last_line_cons :
    (c : ℕ) (s l : Text)
    → EndsLine (c ∷ s)
    → IsOneLine l
    → (f : Text) × (ls : List Text) × (split_lines (c ∷ s ++ l) ≡ f ∷ ls ++ l ∷ [])
last_line_cons c [] l e h =
    ([], [], rw e (rw (split_lines-cons newline l) (rw (split_lines-one l h) refl)))
last_line_cons c (d ∷ cs) l e h =
    let (f, ls, k) = last_line_cons d cs l e h in
    elim (Bool-cases (c == newline)) [
      | inl n ↦ ([], f ∷ ls, rw (split_lines-cons c (d ∷ cs ++ l)) (rw n (rw k refl)))
      | inr n ↦ (c ∷ f, ls, rw (split_lines-cons c (d ∷ cs ++ l)) (rw n (rw k refl)))
    ]

last_line :
    (s l : Text)
    → EndsLine s
    → IsOneLine l
    → (ls : List Text) × (split_lines (s ++ l) ≡ ls ++ l ∷ [])
last_line [] l e h = ([], split_lines-one l h)
last_line (c ∷ cs) l e h = let (f, ls, k) = last_line_cons c cs l e h in (f ∷ ls, k)

EndsLine-append_line : (s l : Text) → EndsLine (s ++ (l ++ newline ∷ []))
EndsLine-append_line [] [] = refl
EndsLine-append_line [] (c ∷ []) = refl
EndsLine-append_line [] (c ∷ d ∷ cs) = EndsLine-append_line [] (d ∷ cs)
EndsLine-append_line (c ∷ []) [] = refl
EndsLine-append_line (c ∷ []) (d ∷ l) = EndsLine-append_line [] (d ∷ l)
EndsLine-append_line (c ∷ d ∷ cs) l = EndsLine-append_line (d ∷ cs) l

-- A part of whole lines that reaches to their end is of whole lines.
EndsLine-drop : (n : ℕ) (s : Text) → EndsLine s → EndsLine (drop n s)
EndsLine-drop zero s h = h
EndsLine-drop (suc n) [] h = h
EndsLine-drop (suc n) (c ∷ []) h = EndsLine-drop n [] tt
EndsLine-drop (suc n) (c ∷ d ∷ cs) h = EndsLine-drop n (d ∷ cs) h

EndsLine-after_line : (s : Text) → EndsLine s → EndsLine (after_line s)
unfolding after_line
EndsLine-after_line [] h = h
EndsLine-after_line (c ∷ []) h = elim (Bool-cases (c == newline)) [
  | inl n ↦ rw n tt
  | inr n ↦ rw n tt
]
EndsLine-after_line (c ∷ d ∷ cs) h = elim (Bool-cases (c == newline)) [
  | inl n ↦ rw n h
  | inr n ↦ rw n (EndsLine-after_line (d ∷ cs) h)
]

EndsLine-retained : (s : Text) (n : ℕ) → EndsLine s → EndsLine (retained s n)
unfolding retained
EndsLine-retained s n h = elim (Bool-cases (n - retained_journal_bytes == 0)) [
  | inl e ↦ rw e tt
  | inr e ↦ rw e (
      EndsLine-after_line (drop (n - retained_journal_bytes) s)
        (EndsLine-drop (n - retained_journal_bytes) s h))
]

EndsLine-compacted : (size : ℕ) (s : Text) → EndsLine s → EndsLine (compacted size s)
unfolding compacted
EndsLine-compacted size s h = elim (Bool-cases (ltb size max_journal_bytes)) [
  | inl e ↦ rw e h
  | inr e ↦ rw e (EndsLine-retained s (length s) h)
]

-- What JSON gives for the record that is written: one line of text that does not end in space, and
-- that is read as the record.
pub record IsWritable (codec : Codec) (r : JournalRecord) : Type 0 where
  pub body : Text
  pub last : ℕ
  pub encoded : codec.encode (safe_record codec r) ≡ body ++ last ∷ []
  pub last_is_no_space : is_space last ≡ false
  pub one_line : IsOneLine (codec.encode (safe_record codec r))
  pub decoded : codec.decode (codec.encode (safe_record codec r)) ≡ some (safe_record codec r)

-- The appends of a process, with the sizes of the file that they find.
unfoldable pub append_all : Codec → List (ℕ × JournalRecord) → JournalFile → JournalFile
unfolding append
append_all codec [] f = f
append_all codec ((size, r) ∷ rs) f = append_all codec rs (append codec written size r f).0

append-EndsLine :
    (codec : Codec) (size : ℕ) (r : JournalRecord) (f : JournalFile)
    → EndsLine (text_of (append codec written size r f).0.contents)
unfolding append
append-EndsLine codec size r f =
    EndsLine-append_line (compacted size (text_of f.contents)) (codec.encode (safe_record codec r))

append_all-EndsLine :
    (codec : Codec) (rs : List (ℕ × JournalRecord)) (f : JournalFile)
    → EndsLine (text_of f.contents)
    → EndsLine (text_of (append_all codec rs f).contents)
unfolding append_all
append_all-EndsLine codec [] f h = h
append_all-EndsLine codec ((size, r) ∷ rs) f h =
    append_all-EndsLine codec rs (append codec written size r f).0 (append-EndsLine codec size r f)

find_line-last :
    (codec : Codec) (r : JournalRecord) (l : Text) (ls : List Text)
    → codec.decode l ≡ some r
    → find_line codec r.operation_id (reverse (ls ++ l ∷ [])) ≡ some r
unfolding find_line
find_line-last codec r l ls h =
    rw (reverse-append ls (l ∷ [])) (rw h (rw (text_eq_refl r.operation_id) refl))

-- Of whole lines and a line that is added, `trimEnd` takes the last line end off.
pub trim_line :
    (codec : Codec) (r : JournalRecord) (s : Text)
    → IsWritable codec r
    → trim_end (s ++ line codec r) ≡ s ++ codec.encode (safe_record codec r)
unfolding is_space
trim_line codec r s w =
    let whole : s ++ line codec r ≡ (((s ++ w.body) ++ w.last ∷ []) ++ newline ∷ []) =
      ap (λ x. s ++ (x ++ newline ∷ [])) w.encoded
      ∙ (sym (append_assoc s (w.body ++ w.last ∷ []) (newline ∷ []))
          ∙ ap (λ x. x ++ newline ∷ []) (sym (append_assoc s w.body (w.last ∷ [])))) in
    ap trim_end whole
    ∙ (trim_end-append (s ++ w.body) w.last newline w.last_is_no_space refl
        ∙ (append_assoc s w.body (w.last ∷ []) ∙ ap (λ x. s ++ x) (sym w.encoded)))

find_record-append :
    (codec : Codec) (size : ℕ) (r : JournalRecord) (f : JournalFile)
    → IsWritable codec r
    → EndsLine (text_of f.contents)
    → find_record codec r.operation_id (append codec written size r f).0
      ≡ some (safe_record codec r)
unfolding find_record append
find_record-append codec size r f w h =
    let s = compacted size (text_of f.contents) in
    let l = codec.encode (safe_record codec r) in
    let (ls, k) = last_line s l (EndsLine-compacted size (text_of f.contents) h) w.one_line in
    rw (trim_line codec r s w) (rw k (find_line-last codec (safe_record codec r) l ls w.decoded))

-- The record that is appended last to a journal is found, with its URL sanitised, whatever appends and
-- compactions came before.
pub find_record-append_all :
    (codec : Codec) (rs : List (ℕ × JournalRecord)) (size : ℕ) (r : JournalRecord)
    → IsWritable codec r
    → find_record codec r.operation_id
        (append codec written size r (append_all codec rs (record { contents = none }))).0
      ≡ some (safe_record codec r)
find_record-append_all codec rs size r w =
    find_record-append codec size r (append_all codec rs (record { contents = none })) w
      (append_all-EndsLine codec rs (record { contents = none }) tt)
