-- ===== src/Lexer/Tokens/Words.antt =====
-- A call of `akl_lex` that skips spaces and reads an atom or a number.
use ak_lisp.Base.{
  ℕ, zero, suc, ◌+◌, ◌^◌, ◌<◌, ◌≤◌, ◌≡◌, refl, ap, ◌∙◌, true, false, some, List, [], ◌∷◌, ◌++◌, map,
  arith, length, replicate, ◌==◌,
}
use ak_lisp.Vector.{u32}
use ak_lisp.Lexer.Chars.{is_digit, is_in_atom, is_valid_in_number, to_lower, c_string}
use ak_lisp.Lexer.Device.{t_number, Device}
use ak_lisp.Lexer.Words.Copied.{At, Accepted, Stops, read}
use ak_lisp.Lexer.Tokens.{lex, lex_from, set_column}
use ak_lisp.Lexer.Tokens.Atoms.{
  IsReady, StartsAtom, token_of, after_getc, lex_from-suc, lex_from-atom, lex_from-number,
}

-- What `k` rounds of the loop on spaces leave.
abbrev pub spaced : ℕ → Device → Device
spaced zero d = d
spaced (suc k) d =
    spaced k (record (after_getc d) { iod_column = u32 ((after_getc d).iod_char_count + 1) })

spaced-IsReady : (k : ℕ) (d : Device) → IsReady d → IsReady (spaced k d)
spaced-IsReady zero d w = w
spaced-IsReady (suc k) d w =
    spaced-IsReady k
      (record (after_getc d) { iod_column = u32 ((after_getc d).iod_char_count + 1) })
      (record { sized = w.sized; backlog = w.backlog; counted = omega arith })

-- The text behind the spaces, seen from the device that skipped them.
At-spaced :
    (k : ℕ) (d : Device) (text : List ℕ)
    → At d.iod_string d.iod_pos (replicate k 32 ++ text)
    → At (spaced k d).iod_string (spaced k d).iod_pos text
At-spaced zero d text w = w
At-spaced (suc k) d text w =
    At-spaced k (record (after_getc d) { iod_column = u32 ((after_getc d).iod_char_count + 1) })
      text w.1

module _ (junk : ℕ) where
  lex_from-spaced :
      (k n : ℕ) (d : Device) (text : List ℕ)
      → At d.iod_string d.iod_pos (replicate k 32 ++ text)
      → lex_from junk (k + n) 0 d ≡ lex_from junk n 0 (spaced k d)
  unfolding set_column
  lex_from-spaced zero n d text w = ap (λ m. lex_from junk m 0 d) (omega arith)
  lex_from-spaced (suc k) n d text w =
      let next = record (after_getc d) { iod_column = u32 ((after_getc d).iod_char_count + 1) } in
      let m : suc k + n ≡ suc (k + n) = omega arith in
      ap (λ m. lex_from junk m 0 d) m
      ∙ lex_from-suc junk (k + n) 0 d 32 w.0 refl refl
      ∙ lex_from-spaced k n next text w.1

  -- With a buffer and nothing put back, a call goes straight to the loop.
  pub lex-lex_from : (n : ℕ) (d : Device) → IsReady d → lex junk n d ≡ lex_from junk n 0 d
  unfolding lex
  lex-lex_from n d w =
      let o : (length d.iod_buffer == 0) ≡ false = ground (arith, w.sized) in
      rw (lex, o, w.backlog) refl

  -- From any number of spaces and an atom, one call of `akl_lex` returns the atom's token, and leaves
  -- its text in lower case in the buffer; the device then stands at the character behind the atom.
  pub lex-atom :
      (k n : ℕ) (d : Device) (c : ℕ) (cs : List ℕ) (e : ℕ)
      → IsReady d
      → StartsAtom c
      → At d.iod_string d.iod_pos (replicate k 32 ++ ((c ∷ cs) ++ (e ∷ [])))
      → Accepted is_in_atom (c ∷ cs)
      → Stops is_in_atom e
      → length (c ∷ cs) < 2 ^ 31
      → length (c ∷ cs) < n
      → (b : List ℕ) × (2 ≤ length b)
        × (c_string b ≡ some (map to_lower (c ∷ cs)))
        × (lex junk (k + suc n) d
            ≡ some (token_of (map to_lower (c ∷ cs)), read (spaced k d) (length (c ∷ cs)) b))
  lex-atom k n d c cs e w s text ok stops small fuel =
      let there = At-spaced k d ((c ∷ cs) ++ (e ∷ [])) text in
      let (b, long, str, run) =
        lex_from-atom junk n (spaced k d) c cs e (spaced-IsReady k d w) s there ok stops small
          fuel in
      (b, long, str, lex-lex_from (k + suc n) d w ∙ lex_from-spaced k (suc n) d _ text ∙ run)

  -- The same for a number that begins with a digit; its text is kept as it is.
  pub lex-number :
      (k n : ℕ) (d : Device) (c : ℕ) (cs : List ℕ) (e : ℕ)
      → IsReady d
      → is_digit c ≡ true
      → At d.iod_string d.iod_pos (replicate k 32 ++ ((c ∷ cs) ++ (e ∷ [])))
      → Accepted is_valid_in_number (c ∷ cs)
      → Stops is_valid_in_number e
      → length (c ∷ cs) < 2 ^ 31
      → length (c ∷ cs) < n
      → (b : List ℕ) × (2 ≤ length b)
        × (c_string b ≡ some (map (λ x. x) (c ∷ cs)))
        × (lex junk (k + suc n) d ≡ some (t_number, read (spaced k d) (length (c ∷ cs)) b))
  lex-number k n d c cs e w s text ok stops small fuel =
      let there = At-spaced k d ((c ∷ cs) ++ (e ∷ [])) text in
      let (b, long, str, run) =
        lex_from-number junk n (spaced k d) c cs e (spaced-IsReady k d w) s there ok stops small
          fuel in
      (b, long, str, lex-lex_from (k + suc n) d w ∙ lex_from-spaced k (suc n) d _ text ∙ run)
