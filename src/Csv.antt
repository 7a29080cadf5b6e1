-- ===== src/Csv.antt =====
-- tools/provisioning/src/lib/csv.ts: the file of the fleet that comes from a spreadsheet, cut into
-- lines of fields.
pub mod Quoted
use phone_control.Common.{
  ℕ, ◌+◌, Bool, true, false, not, ◌&&◌, List, [], ◌∷◌, ◌++◌, ◌==◌, ltb, if◌then◌else◌,
}
use phone_control.Common.Texts.{is_empty}
use phone_control.Rules.Clock.{Text}

abbrev pub quote : ℕ
quote = 34

abbrev pub line_feed : ℕ
line_feed = 10

abbrev pub carriage_return : ℕ
carriage_return = 13

-- `;`, `,` and the tabulator
abbrev pub delimiters : List ℕ
delimiters = 59 ∷ 44 ∷ 9 ∷ []

-- How often the candidate stands outside quotes.
abbrev pub count_outside : (candidate : ℕ) → (in_quotes : Bool) → Text → ℕ
count_outside candidate in_quotes [] = 0
count_outside candidate in_quotes (c ∷ cs) =
    (if not (c == quote) && c == candidate && not in_quotes then 1 else 0)
    + count_outside candidate (if c == quote then not in_quotes else in_quotes) cs

-- `best`, and `bestCount` with one added.
abbrev pub best_of : (first_line : Text) → (candidates : List ℕ) (best best_count : ℕ) → ℕ
best_of first_line [] best best_count = best
best_of first_line (candidate ∷ rest) best best_count =
    let count = count_outside candidate false first_line + 1 in
    if ltb best_count count
    then best_of first_line rest candidate count
    else best_of first_line rest best best_count

unfoldable pub detect_delimiter : (first_line : Text) → ℕ
detect_delimiter first_line = best_of first_line delimiters 59 0

-- What is read so far: `rows`, `row` and `field`.
pub record Reading : Type 0 where
  pub rows : List (List Text)
  pub row : List Text
  pub field : Text

abbrev pub add_char : ℕ → Reading → Reading
add_char c s = record s { field = s.field ++ c ∷ [] }

abbrev pub end_field : Reading → Reading
end_field s = record s { row = s.row ++ s.field ∷ []; field = [] }

abbrev pub end_row : Reading → Reading
end_row s = record { rows = s.rows ++ (s.row ++ s.field ∷ []) ∷ []; row = []; field = [] }

-- A character outside quotes.
abbrev pub read_outside : (delimiter c : ℕ) → Reading → Reading
read_outside delimiter c s =
    if c == quote
    then s
    else if c == delimiter
    then end_field s
    else if c == line_feed
    then end_row s
    else if c == carriage_return
    then s
    else add_char c s

-- The loop, with `in_quotes`.
abbrev pub read_text : (delimiter : ℕ) → (in_quotes : Bool) → Reading → Text → Reading
read_text delimiter in_quotes s [] = s
read_text delimiter false s (c ∷ cs) =
    read_text delimiter (c == quote) (read_outside delimiter c s) cs
read_text delimiter true s (c ∷ []) = if c == quote then s else add_char c s
read_text delimiter true s (c ∷ d ∷ cs) = elim (c == quote) [
  | false ↦ read_text delimiter true (add_char c s) (d ∷ cs)
  | true ↦ elim (d == quote) [
    | true ↦ read_text delimiter true (add_char quote s) cs
    | false ↦ read_text delimiter false s (d ∷ cs)
  ]
]

abbrev pub has_fields : List Text → Bool
has_fields [] = false
has_fields (f ∷ fs) = true

-- The last line, where it does not end.
abbrev pub last_row : Reading → List (List Text)
last_row s = if is_empty s.field && not (has_fields s.row) then s.rows else (end_row s).rows

abbrev pub nothing_read : Reading
nothing_read = record { rows = []; row = []; field = [] }

unfoldable pub parse_delimited : (text : Text) (delimiter : ℕ) → List (List Text)
parse_delimited text delimiter = last_row (read_text delimiter false nothing_read text)
