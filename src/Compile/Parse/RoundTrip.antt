-- ===== src/Compile/Parse/RoundTrip.antt =====
-- A value that is written as lexemes is what `akl_parse_value` reads from them.
use mathlib.Core.List.{append_assoc}
use ak_lisp.Base.{
  ℕ, zero, suc, ◌<◌, Bool, true, false, ◌&&◌, some, List, [], ◌∷◌, ◌++◌, ◌≡◌, refl, ap, ◌∙◌, arith,
  length, length-append,
}
use ak_lisp.Values.{
  Body, Value, Values, value, no_values, more, vt_nil, vt_true, vt_symbol, vt_variable, vt_number,
  vt_string, vt_list, vt_function, vt_userdata,
}
use ak_lisp.Compile.Parse.{
  Lexeme, atom, number, string, nil, true_atom, lbrace, rbrace, quote, parse_token, parse_value,
  parse_list, list_value, append_value,
}

-- The way to write a value: a quotation mark if it is quoted, and a list in braces.
unfoldable mutual
  pub written : Value → List Lexeme
  written (value true b) = quote ∷ written_body b
  written (value false b) = written_body b

  pub written_body : Body → List Lexeme
  written_body vt_nil = nil ∷ []
  written_body vt_true = true_atom ∷ []
  written_body (vt_symbol s) = atom s ∷ []
  written_body (vt_number n) = number n ∷ []
  written_body (vt_string s) = string s ∷ []
  written_body (vt_list q vs) = lbrace ∷ written_all vs
  written_body (vt_variable s) = []
  written_body (vt_function f) = []
  written_body (vt_userdata t p) = []

  pub written_all : Values → List Lexeme
  written_all no_values = rbrace ∷ []
  written_all (more v vs) = written v ++ written_all vs

-- Data as the parser makes it: each list is marked as quoted, and there are no other kinds of values.
unfoldable mutual
  pub is_datum : Value → Bool
  is_datum (value q b) = is_datum_body b

  pub is_datum_body : Body → Bool
  is_datum_body vt_nil = true
  is_datum_body vt_true = true
  is_datum_body (vt_symbol s) = true
  is_datum_body (vt_number n) = true
  is_datum_body (vt_string s) = true
  is_datum_body (vt_list q vs) = q && is_datum_all vs
  is_datum_body (vt_variable s) = false
  is_datum_body (vt_function f) = false
  is_datum_body (vt_userdata t p) = false

  pub is_datum_all : Values → Bool
  is_datum_all no_values = true
  is_datum_all (more v vs) = is_datum v && is_datum_all vs

abbrev pub Parses : Value → Type 0
Parses v =
    (n : ℕ) (ts : List Lexeme)
    → is_datum v ≡ true
    → length (written v) < n
    → parse_value n (written v ++ ts) ≡ some (some v, ts)

-- The same behind a quotation mark that is already read.
abbrev pub ParsesToken : Body → Type 0
ParsesToken b =
    (n : ℕ) (q : Bool) (ts : List Lexeme)
    → is_datum_body b ≡ true
    → length (written_body b) < suc n
    → parse_token (λ us. parse_list n us) q (written_body b ++ ts) ≡ some (some (value q b), ts)

abbrev pub ParsesAll : Values → Type 0
ParsesAll vs =
    (n : ℕ) (ts : List Lexeme)
    → is_datum_all vs ≡ true
    → length (written_all vs) < n
    → parse_list n (written_all vs ++ ts) ≡ some (vs, ts)

unquoted-Parses : (b : Body) → ParsesToken b → Parses (value false b)
unfolding parse_value parse_token written is_datum
unquoted-Parses b h zero ts d fuel = absurd (omega arith)
unquoted-Parses vt_nil h (suc n) ts d fuel = refl
unquoted-Parses vt_true h (suc n) ts d fuel = refl
unquoted-Parses (vt_symbol s) h (suc n) ts d fuel = refl
unquoted-Parses (vt_number k) h (suc n) ts d fuel = refl
unquoted-Parses (vt_string s) h (suc n) ts d fuel = refl
unquoted-Parses (vt_list q vs) h (suc n) ts d fuel = h n false ts d fuel
unquoted-Parses (vt_variable s) h (suc n) ts d fuel = ground arith
unquoted-Parses (vt_function f) h (suc n) ts d fuel = ground arith
unquoted-Parses (vt_userdata t p) h (suc n) ts d fuel = ground arith

quoted-Parses : (b : Body) → ParsesToken b → Parses (value true b)
unfolding parse_value written is_datum
quoted-Parses b h zero ts d fuel = absurd (omega arith)
quoted-Parses b h (suc n) ts d fuel = h n true ts d (omega arith)

written_all_pos : (vs : Values) → 0 < length (written_all vs)
unfolding written
written_all_pos no_values = omega arith
written_all_pos (more v vs) =
    let rest = written_all_pos vs in
    let size = length-append (written v) (written_all vs) in omega arith

written_pos : (v : Value) → is_datum v ≡ true → 0 < length (written v)
unfolding written is_datum
written_pos (value true b) d = omega arith
written_pos (value false vt_nil) d = omega arith
written_pos (value false vt_true) d = omega arith
written_pos (value false (vt_symbol s)) d = omega arith
written_pos (value false (vt_number k)) d = omega arith
written_pos (value false (vt_string s)) d = omega arith
written_pos (value false (vt_list q vs)) d = omega arith
written_pos (value false (vt_variable s)) d = ground arith
written_pos (value false (vt_function f)) d = ground arith
written_pos (value false (vt_userdata t p)) d = ground arith

both : (a b : Bool) → (a && b) ≡ true → (a ≡ true) × (b ≡ true)
both true b h = (refl, h)
both false b h = ground arith

mutual
  unfolding parse_value parse_token written is_datum

  value-Parses : (v : Value) → Parses v
  value-Parses (value true b) = quoted-Parses b (body-ParsesToken b)
  value-Parses (value false b) = unquoted-Parses b (body-ParsesToken b)

  pub body-ParsesToken : (b : Body) → ParsesToken b
  body-ParsesToken vt_nil n q ts d fuel = refl
  body-ParsesToken vt_true n q ts d fuel = refl
  body-ParsesToken (vt_symbol s) n q ts d fuel = refl
  body-ParsesToken (vt_number k) n q ts d fuel = refl
  body-ParsesToken (vt_string s) n q ts d fuel = refl
  body-ParsesToken (vt_list false vs) n q ts d fuel = ground arith
  body-ParsesToken (vt_list true vs) n q ts d fuel =
      ap (list_value q) (values-ParsesAll vs n ts d (omega arith))
  body-ParsesToken (vt_variable s) n q ts d fuel = ground arith
  body-ParsesToken (vt_function f) n q ts d fuel = ground arith
  body-ParsesToken (vt_userdata t p) n q ts d fuel = ground arith

  values-ParsesAll : (vs : Values) → ParsesAll vs
  values-ParsesAll vs zero ts d fuel = absurd (omega (arith, fuel, written_all_pos vs))
  values-ParsesAll no_values (suc zero) ts d fuel = absurd (omega arith)
  values-ParsesAll no_values (suc (suc n)) ts d fuel = refl
  values-ParsesAll (more v vs) (suc n) ts d fuel =
      let size = length-append (written v) (written_all vs) in
      let pos = written_all_pos vs in
      let parts = both (is_datum v) (is_datum_all vs) d in
      let first = value-Parses v n (written_all vs ++ ts) parts.0 (omega arith) in
      let others = values-ParsesAll vs n ts parts.1 (omega (arith, written_pos v parts.0)) in
      ap (λ us. append_value (parse_value n us) (λ us. parse_list n us))
        (append_assoc (written v) (written_all vs) ts)
      ∙ ap (λ r. append_value r (λ us. parse_list n us)) first
      ∙ ap (λ r. append_value (some (some v, [])) (λ us. r)) others

-- The lexemes that a value is written as, and any others behind them, make `akl_parse_value` return
-- that value and leave the others. The value is data: its lists are marked as quoted, it holds no
-- variable, function or user type. Fuel above the number of its lexemes is enough.
pub parse_value-written :
    (v : Value) (n : ℕ) (ts : List Lexeme)
    → is_datum v ≡ true
    → length (written v) < n
    → parse_value n (written v ++ ts) ≡ some (some v, ts)
parse_value-written = value-Parses
