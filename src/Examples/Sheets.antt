-- ===== src/Examples/Sheets.antt =====
-- A file of phones from a spreadsheet.
use phone_control.Common.{ℕ, ◌≡◌, [], ◌∷◌, arith}
use phone_control.Rules.Clock.{Text}
use phone_control.Csv.{quote, line_feed, parse_delimited}
use phone_control.Csv.Quoted.{table_text, parse_delimited-table_text}

abbrev semicolon : ℕ
semicolon = 59

-- A quote, a line feed and a delimiter.
abbrev odd : Text
odd = quote ∷ line_feed ∷ semicolon ∷ []

parse_delimited-table_text_example :
    parse_delimited (table_text semicolon ((odd, []) ∷ ([], odd ∷ []) ∷ [])) semicolon
    ≡ (odd ∷ []) ∷ ([] ∷ odd ∷ []) ∷ []
parse_delimited-table_text_example =
    parse_delimited-table_text semicolon ((odd, []) ∷ ([], odd ∷ []) ∷ []) (λ e. ground arith)
      (λ e. ground arith)
