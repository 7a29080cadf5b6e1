-- ===== src/Csv/Quoted.antt =====
-- What a spreadsheet writes is read back.
use phone_control.Common.{
  ℕ, ◌≡◌, ◌≢◌, ◌∙◌, refl, sym, ap, inl, inr, true, false, List, [], ◌∷◌, ◌++◌, ◌==◌, ==_iff,
  if◌then◌else◌, Bool-cases, arith,
}
use mathlib.Core.Path.{subst}
use phone_control.Rules.Clock.{Text}
use phone_control.Csv.{quote, line_feed, Reading, add_char, read_text, last_row, parse_delimited}

-- A quote within quotes is written twice.
abbrev pub doubled : Text → Text → Text
doubled [] rest = rest
doubled (c ∷ cs) rest =
    let later = doubled cs rest in if c == quote then quote ∷ quote ∷ later else c ∷ later

-- A field in quotes, before the rest of the file.
abbrev pub field_text : (field rest : Text) → Text
field_text field rest = quote ∷ doubled field (quote ∷ rest)

-- A line of a field and further fields.
abbrev pub row_text : (delimiter : ℕ) (field : Text) (fields : List Text) (rest : Text) → Text
row_text delimiter field [] rest = field_text field (line_feed ∷ rest)
row_text delimiter field (next ∷ fields) rest =
    field_text field (delimiter ∷ row_text delimiter next fields rest)

abbrev pub table_text : (delimiter : ℕ) → List (Text × List Text) → Text
table_text delimiter [] = []
table_text delimiter ((field, fields) ∷ rows) =
    row_text delimiter field fields (table_text delimiter rows)

abbrev pub fields_of : List (Text × List Text) → List (List Text)
fields_of [] = []
fields_of ((field, fields) ∷ rows) = (field ∷ fields) ∷ fields_of rows

append-nil : {A : Type 0} (xs : List A) → xs ++ [] ≡ xs
append-nil [] = refl
append-nil (x ∷ xs) = ap (λ r. x ∷ r) (append-nil xs)

append-append : {A : Type 0} (xs ys zs : List A) → (xs ++ ys) ++ zs ≡ xs ++ (ys ++ zs)
append-append [] ys zs = refl
append-append (x ∷ xs) ys zs = ap (λ r. x ∷ r) (append-append xs ys zs)

module _ (delimiter : ℕ) where
  inside :
      (s : Reading) (c : ℕ) (cs : Text)
      → (c == quote) ≡ false
      → read_text delimiter true s (c ∷ cs) ≡ read_text delimiter true (add_char c s) cs
  inside s c [] e = rw e refl
  inside s c (d ∷ cs) e = rw (e, read_text) refl

  closing :
      (s : Reading) (after : ℕ) (rest : Text)
      → (after == quote) ≡ false
      → read_text delimiter true s (quote ∷ after ∷ rest)
        ≡ read_text delimiter false s (after ∷ rest)
  closing s after rest e =
      subst
        (λ b.
          (elim b [
            | true ↦ read_text delimiter true (add_char quote s) rest
            | false ↦ read_text delimiter false s (after ∷ rest)
          ])
          ≡ read_text delimiter false s (after ∷ rest))
        (sym e) refl

  -- Up to the closing quote, which no quote follows.
  read_doubled :
      (field : Text) (s : Reading) (after : ℕ) (rest : Text)
      → (after == quote) ≡ false
      → read_text delimiter true s (doubled field (quote ∷ after ∷ rest))
        ≡ read_text delimiter false (record s { field = s.field ++ field }) (after ∷ rest)
  read_doubled [] s after rest e =
      closing s after rest e
      ∙ ap (λ f. read_text delimiter false (record s { field = f }) (after ∷ rest))
          (sym (append-nil s.field))
  read_doubled (c ∷ cs) s after rest e = elim (Bool-cases (c == quote)) [
    | inl q ↦
        let same : c ≡ quote = (==_iff c quote).0 q in
        rw (q, same)
          (read_doubled cs (add_char quote s) after rest e
            ∙ ap (λ f. read_text delimiter false (record s { field = f }) (after ∷ rest))
                (append-append s.field (quote ∷ []) cs))
    | inr q ↦ rw q (
        inside s c (doubled cs (quote ∷ after ∷ rest)) q
        ∙ read_doubled cs (add_char c s) after rest e
        ∙ ap (λ f. read_text delimiter false (record s { field = f }) (after ∷ rest))
            (append-append s.field (c ∷ []) cs))
  ]

  module _ (h : (delimiter == quote) ≡ false) (k : (line_feed == delimiter) ≡ false) where
    read_row :
        (field : Text) (fields : List Text) (rows : List (List Text)) (row : List Text)
        (rest : Text)
        → read_text delimiter false
            (record { rows = rows; row = row; field = [] })
            (row_text delimiter field fields rest)
          ≡ read_text delimiter false
              (record { rows = rows ++ (row ++ field ∷ fields) ∷ []; row = []; field = [] })
              rest
    read_row field [] rows row rest =
        read_doubled field (record { rows = rows; row = row; field = [] }) line_feed rest refl
        ∙ rw k refl
    read_row field (next ∷ fields) rows row rest =
        read_doubled field (record { rows = rows; row = row; field = [] }) delimiter
          (row_text delimiter next fields rest) h
        ∙ rw (read_text, h, (==_iff delimiter delimiter).1 refl)
            (read_row next fields rows (row ++ field ∷ []) rest
              ∙ ap
                  (λ r.
                    read_text delimiter false
                      (record { rows = rows ++ r ∷ []; row = []; field = [] }) rest)
                  (append-append row (field ∷ []) (next ∷ fields)))

    read_rows :
        (table : List (Text × List Text)) (rows : List (List Text))
        → last_row (
            read_text delimiter false
              (record { rows = rows; row = []; field = [] })
              (table_text delimiter table))
          ≡ rows ++ fields_of table
    read_rows [] rows = sym (append-nil rows)
    read_rows ((field, fields) ∷ table) rows =
        ap last_row (read_row field fields rows [] (table_text delimiter table))
        ∙ read_rows table (rows ++ (field ∷ fields) ∷ [])
        ∙ append-append rows ((field ∷ fields) ∷ []) (fields_of table)

-- A file whose fields stand in quotes, their own quotes doubled, is read as the table that was
-- written, whatever the fields hold, for each delimiter but the quote and the line feed.
pub parse_delimited-table_text :
    (delimiter : ℕ) (table : List (Text × List Text))
    → delimiter ≢ quote
    → delimiter ≢ line_feed
    → parse_delimited (table_text delimiter table) delimiter ≡ fields_of table
unfolding parse_delimited
parse_delimited-table_text delimiter table h k =
    let apart : (delimiter == quote) ≡ false = ground (arith, h) in
    let other : (line_feed == delimiter) ≡ false = ground (arith, k) in
    read_rows delimiter apart other table []
