-- ===== src/Lexer/Words.antt =====
-- The loops of src/lexer.c that copy a number, an atom, a word or a string to the buffer.
-- `n` is the fuel: one for each character that is left is enough.
pub mod Buffer
pub mod Copied
use ak_lisp.Base.{ℕ, zero, suc, ◌+◌, Bool, ◌==◌, if◌then◌else◌}
use ak_lisp.Lexer.Chars.{to_lower, is_valid_in_number, is_in_atom, is_in_word}
use ak_lisp.Lexer.Device.{Device, Lex, pure, fault, ◌>>=◌, ◌>>◌, getc, ungetc, is_eof, put_buffer}

module _ (junk : ℕ) where
  -- The loop that `copy_number`, `copy_atom` and `copy_word` share: `good` is its test, `change`
  -- is done to a character before it is stored, `i` is the next position.
  unfoldable pub copy_while : (good : ℕ → Bool) (change : ℕ → ℕ) → ℕ → ℕ → Lex ℕ
  copy_while good change zero i = fault
  copy_while good change (suc n) i =
      let rest = copy_while good change n (i + 1) in
      do
        ch ← getc
        if ch == 0
            then pure i
            else if good ch
            then (do
              put_buffer junk i (change ch)
              at_end ← is_eof
              if at_end then pure (i + 1) else rest)
            else (do ungetc; pure i)

  unfoldable pub copy_number : ℕ → ℕ → Lex ℕ
  unfolding copy_while
  copy_number n op =
      if op == 0
      then copy_while is_valid_in_number (λ c. c) n 0
      else (do put_buffer junk 0 op; copy_while is_valid_in_number (λ c. c) n 1)

  unfoldable pub copy_atom : ℕ → Lex ℕ
  unfolding copy_while
  copy_atom n = copy_while is_in_atom to_lower n 0

  pub copy_word : ℕ → Lex ℕ
  unfolding copy_while
  copy_word n = copy_while is_in_word (λ c. c) n 0

  abbrev or_end : ℕ → Lex ℕ → Lex ℕ
  or_end j rest = do at_end ← is_eof; if at_end then pure j else rest

  copy_string_from : ℕ → ℕ → Lex ℕ
  copy_string_from zero i = fault
  copy_string_from (suc n) i =
      let one = copy_string_from n (i + 1) in
      let two = copy_string_from n (i + 2) in
      do
        ch ← getc
        if ch == 0
            then pure i
            else if ch == 92
            then (do
              ch' ← getc
              if ch' == 34
                  then (do put_buffer junk i ch'; or_end (i + 1) one)
                  else (do put_buffer junk i 92; put_buffer junk (i + 1) ch'; or_end (i + 2) two))
            else if ch == 34
            then pure i
            else (do put_buffer junk i ch; or_end (i + 1) one)

  pub copy_string : ℕ → Lex ℕ
  unfolding copy_string_from
  copy_string n = copy_string_from n 0
