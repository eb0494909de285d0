-- ===== src/Compile/Parse.antt =====
-- The parser of quoted data in src/parser.c.
pub mod RoundTrip
use ak_lisp.Base.{
  ℕ, zero, suc, Bool, true, false, Option, none, some, List, [], ◌∷◌, ◌++◌, if◌then◌else◌,
}
use ak_lisp.Values.{
  Body, Value, Values, value, no_values, more, vt_nil, vt_true, vt_symbol, vt_variable, vt_number,
  vt_string, vt_list, vt_function, vt_userdata,
}

-- A token of `akl_lex` with what `akl_lex_get_symbol`, `akl_lex_get_number` or `akl_lex_get_string`
-- makes of its text. The end of the input is the end of the list.
pub data Lexeme : Type 0 where
  atom : ℕ → Lexeme
  number : ℕ → Lexeme
  string : List ℕ → Lexeme
  nil true_atom lbrace rbrace quote : Lexeme

-- The outer `none` is a fault, the use of a NULL, or the want of fuel; the inner one is NULL.
abbrev pub Result : Type 0
Result = Option (Option Value × List Lexeme)

abbrev pub ListParser : Type 0
ListParser = List Lexeme → Option (Values × List Lexeme)

abbrev pub list_value : Bool → Option (Values × List Lexeme) → Result
list_value q none = none
list_value q (some (vs, ts)) = some (some (value q (vt_list true vs)), ts)

-- `akl_parse_token` on the next token; `list` is `akl_parse_list`. After a second quote the value is
-- NULL, and its `is_quoted` is written.
unfoldable pub parse_token : ListParser → Bool → List Lexeme → Result
parse_token list q [] = some (none, [])
parse_token list q (rbrace ∷ ts) = some (none, ts)
parse_token list q (atom s ∷ ts) = some (some (value q (vt_symbol s)), ts)
parse_token list q (number n ∷ ts) = some (some (value q (vt_number n)), ts)
parse_token list q (string s ∷ ts) = some (some (value q (vt_string s)), ts)
parse_token list q (lbrace ∷ ts) = list_value q (list ts)
parse_token list q (nil ∷ ts) = some (some (value q vt_nil), ts)
parse_token list q (true_atom ∷ ts) = some (some (value q vt_true), ts)
parse_token list q (quote ∷ ts) = none

-- One step of `akl_parse_list`: NULL ends the list.
abbrev pub append_value : Result → ListParser → Option (Values × List Lexeme)
append_value none rest = none
append_value (some (none, ts)) rest = some (no_values, ts)
append_value (some (some v, ts)) rest = elim (rest ts) [
  | none ↦ none
  | some (vs, us) ↦ some (more v vs, us)
]

abbrev pub dequote : ListParser → List Lexeme → Result
dequote list [] = parse_token list false []
dequote list (quote ∷ ts) = parse_token list true ts
dequote list (t ∷ ts) = parse_token list false (t ∷ ts)

-- `akl_parse_value` and the loop of `akl_parse_list`, with the fuel `n`.
unfoldable mutual
  pub parse_value : ℕ → List Lexeme → Result
  parse_value zero ts = none
  parse_value (suc n) ts = dequote (λ us. parse_list n us) ts

  pub parse_list : ℕ → List Lexeme → Option (Values × List Lexeme)
  parse_list zero ts = none
  parse_list (suc n) ts = append_value (parse_value n ts) (λ us. parse_list n us)

-- `akl_str_to_list`
pub str_to_list : ℕ → List Lexeme → Option (Option Values × List Lexeme)
unfolding parse_list
str_to_list n (lbrace ∷ ts) = elim (parse_list n ts) [
  | none ↦ none
  | some (vs, us) ↦ some (some vs, us)
]
str_to_list n (quote ∷ ts) = elim (parse_list n ts) [
  | none ↦ none
  | some (vs, us) ↦ some (some vs, us)
]
str_to_list n ts = some (none, ts)
