-- ===== src/Lexer/Tokens.antt =====
-- `akl_lex` of src/lexer.c on a string device.
-- `n` is the fuel: one round for each character that is left and one more are enough.
pub mod Atoms
pub mod Words
pub mod Ends
mod Tests
use ak_lisp.Base.{
  length, ℕ, zero, suc, Bool, true, false, ◌&&◌, ◌||◌, not, Option, none, some, List, [], ◌∷◌, ◌==◌,
  ◌+◌, if◌then◌else◌,
}
use ak_lisp.Vector.{u32}
use ak_lisp.Lexer.Chars.{is_digit, is_alpha, is_punct, c_string, same_word}
use ak_lisp.Lexer.Device.{
  Token, t_eof, t_nil, t_atom, t_number, t_string, t_true, t_lbrace, t_rbrace, t_quote, is_t_eof,
  Device, Lex, pure, fault, ◌>>=◌, ◌>>◌, get, put, getc, ungetc, is_eof, put_string, init_lexer,
}
use ak_lisp.Lexer.Words.{copy_number, copy_atom, copy_string}

-- The line of a shebang: the character that ends it, a new line or the NUL.
unfoldable pub skip_line : ℕ → Lex ℕ
skip_line zero = fault
skip_line (suc n) =
    let rest = skip_line n in do ch ← getc; if ch == 0 || ch == 10 then pure ch else rest

-- The rest of a comment. Whether the string ended in it.
unfoldable pub skip_comment : ℕ → Lex Bool
skip_comment zero = fault
skip_comment (suc n) =
    let rest = skip_comment n in
    do
      ch ← getc
      if ch == 10 then pure false else (do at_end ← is_eof; if at_end then pure true else rest)

pub new_line : Lex (Unit {0})
new_line d = some (tt, record d { iod_line_count = u32 (d.iod_line_count + 1); iod_char_count = 0 })

unfoldable pub set_column : Lex (Unit {0})
set_column d = some (tt, record d { iod_column = u32 (d.iod_char_count + 1) })

-- the token of the atom in the buffer: `nil` and `t` are no atoms
unfoldable pub atom_token : Lex Token
atom_token d = elim (c_string d.iod_buffer) [
  | none ↦ none
  | some s ↦ some (
    if same_word s (78 ∷ 73 ∷ 76 ∷ [])
        then t_nil
        else if same_word s (84 ∷ [])
        then t_true
        else t_atom,
    d,
  )
]

-- `op`, put back into the buffer as an atom once or twice
abbrev pub sign_once : ℕ → List ℕ
sign_once op = if op == 43 then 43 ∷ [] else 45 ∷ []

abbrev pub sign_twice : ℕ → List ℕ
sign_twice op = if op == 43 then 43 ∷ 43 ∷ [] else 45 ∷ 45 ∷ []

module _ (junk : ℕ) where
  -- A character after the tests for the ends of a line and of the input; `rest` goes on with the
  -- loop, given `op`.
  abbrev pub dispatch : ℕ → (ℕ → Lex Token) → (op ch : ℕ) → Lex Token
  dispatch n rest op ch =
      if ch == 255
      then pure t_eof
      else if ch == 10
      then (do new_line; rest op)
      else if ch == 43 || ch == 45
      then if op == 0 then rest ch else (do put_string (sign_twice op); pure t_atom)
      else if is_digit ch
      then (do ungetc; _ ← copy_number junk n op; pure t_number)
      else if ch == 32 || ch == 41
      then (do
        set_column
        if op == 0
            then if ch == 41 then pure t_rbrace else rest op
            else (do put_string (sign_once op); if ch == 41 then ungetc else pure tt; pure t_atom))
      else if ch == 34
      then (do
        ch' ← getc
        if ch' == 34 then pure t_nil else (do ungetc; _ ← copy_string junk n; pure t_string))
      else if ch == 40
      then (do set_column; ch' ← getc; if ch' == 41 then pure t_nil else (do ungetc; pure t_lbrace))
      else if ch == 39 || ch == 58
      then pure t_quote
      else if ch == 59
      then (do at_end ← skip_comment n; if at_end then pure t_eof else rest op)
      else if is_alpha ch || is_punct ch
      then (do if op == 0 then pure tt else ungetc; ungetc; _ ← copy_atom junk n; atom_token)
      else rest op

  unfoldable pub lex_from : ℕ → ℕ → Lex Token
  unfolding skip_line skip_comment new_line set_column atom_token
  lex_from zero op = fault
  lex_from (suc n) op =
      let rest = lex_from n in
      do
        ch ← getc
        if ch == 0 then pure t_eof else (do
          d ← get
          ch' ← (if (d.iod_char_count == 1) && (ch == 35) then skip_line n else pure ch)
          dispatch n rest op ch')

  unfoldable pub lex : ℕ → Lex Token
  unfolding lex_from
  lex n = do
    d ← get
    if length d.iod_buffer == 0 then init_lexer junk else pure tt
    e ← get
    if is_t_eof e.iod_backlog
        then lex_from n 0
        else (do put (record e { iod_backlog = t_eof }); pure e.iod_backlog)
