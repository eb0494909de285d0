-- ===== src/Lexer/Tokens/Atoms.antt =====
-- The words that `akl_lex` reads: atoms and numbers.
use ak_lisp.Base.{
  ℕ, suc, ◌+◌, ◌-◌, ◌^◌, ◌<◌, ◌≤◌, ◌≡◌, refl, ap, ◌∙◌, Bool, true, false, ◌&&◌, ◌||◌, some, List,
  [], ◌∷◌, ◌++◌, map, arith, length, get_elem?, ◌==◌, if◌then◌else◌,
}
use ak_lisp.Vector.{u32}
use ak_lisp.Lexer.Chars.{
  is_digit, is_alpha, is_punct, is_in_atom, is_valid_in_number, to_lower, c_string, same_word,
}
use ak_lisp.Lexer.Device.{
  Token, t_eof, t_nil, t_atom, t_number, t_true, Device, Lex, pure, ◌>>=◌, ◌>>◌, getc, ungetc,
}
use ak_lisp.Lexer.Words.{copy_atom, copy_number}
use ak_lisp.Lexer.Words.Buffer.{Holds}
use ak_lisp.Lexer.Words.Copied.{At, Accepted, Stops, read, IsSized, copy_while-word}
use ak_lisp.Lexer.Tokens.{lex_from, dispatch, atom_token}

-- A device that was read from before, with nothing put back.
pub record IsReady (d : Device) : Type 0 where
  pub sized : IsSized d
  pub backlog : d.iod_backlog ≡ t_eof
  pub counted : d.iod_char_count < 2 ^ 32

-- A character that only the last test of `akl_lex` accepts.
abbrev pub StartsAtom : ℕ → Type 0
StartsAtom c =
    ((c == 0) ≡ false)
    × ((c == 255) ≡ false)
    × ((c == 10) ≡ false)
    × ((c == 43 || c == 45) ≡ false)
    × (is_digit c ≡ false)
    × ((c == 32 || c == 41) ≡ false)
    × ((c == 34) ≡ false)
    × ((c == 40) ≡ false)
    × ((c == 39 || c == 58) ≡ false)
    × ((c == 59) ≡ false)
    × ((c == 35) ≡ false)
    × ((is_alpha c || is_punct c) ≡ true)

-- The token of an atom.
abbrev pub token_of : List ℕ → Token
token_of s =
    if same_word s (78 ∷ 73 ∷ 76 ∷ [])
    then t_nil
    else if same_word s (84 ∷ [])
    then t_true
    else t_atom

c_string-Holds : (w ys : List ℕ) → Accepted (λ _. true) w → c_string (w ++ (0 ∷ ys)) ≡ some w
c_string-Holds [] ys ok = refl
c_string-Holds (c ∷ w) ys ok = rw (ok.0, c_string-Holds w ys ok.2) refl

lower-Accepted :
    (good : ℕ → Bool) (w : List ℕ) → Accepted good w → Accepted (λ _. true) (map to_lower w)
lower-Accepted good [] ok = tt
lower-Accepted good (c ∷ w) ok = (ground (arith, ok.0), refl, lower-Accepted good w ok.2)

Holds-nil : (b : List ℕ) → 2 ≤ length b → (old : ℕ) × Holds b [] old
Holds-nil [] h = absurd (omega arith)
Holds-nil (x ∷ ys) h = (x, (ys, refl))

-- What `getc` and the `ungetc` that undoes it leave.
abbrev pub after_getc : Device → Device
after_getc d = record d { iod_char_count = u32 (d.iod_char_count + 1); iod_pos = d.iod_pos + 1 }

pub getc_lem :
    (d : Device) (c : ℕ)
    → get_elem? d.iod_string d.iod_pos ≡ some c
    → getc d ≡ some (c, after_getc d)
unfolding getc
getc_lem d c here = rw (getc, here) refl

pub ungetc_lem :
    (d : Device) (c : ℕ)
    → d.iod_char_count < 2 ^ 32
    → get_elem? d.iod_string d.iod_pos ≡ some c
    → ungetc (after_getc d) ≡ some (tt, d)
unfolding ungetc
ungetc_lem d c small here =
    let p : d.iod_pos + 1 - 1 ≡ d.iod_pos = omega arith in
    let q : (d.iod_pos + 1 == 0) ≡ false = ground arith in
    let n : u32 (u32 (d.iod_char_count + 1) + 2 ^ 32 - 1) ≡ d.iod_char_count = omega arith in
    rw (ungetc, p, here, q, n) (ap (λ m. some (tt, record d { iod_pos = m })) p)

and_false : (b c : Bool) → c ≡ false → (b && c) ≡ false
and_false b c e = ground (arith, e)

module _ (junk : ℕ) where
  -- A round of the loop on a character that is no NUL and starts no shebang.
  pub lex_from-suc :
      (n op : ℕ) (d : Device) (c : ℕ)
      → get_elem? d.iod_string d.iod_pos ≡ some c
      → (c == 0) ≡ false
      → (c == 35) ≡ false
      → lex_from junk (suc n) op d ≡ dispatch junk n (lex_from junk n) op c (after_getc d)
  unfolding lex_from
  lex_from-suc n op d c here o hash =
      rw
        (
          lex_from,
          getc_lem d c here,
          o,
          and_false ((after_getc d).iod_char_count == 1) (c == 35) hash,
        )
        refl

  dispatch-atom :
      (n : ℕ) (rest : ℕ → Lex Token) (c : ℕ) (d : Device)
      → StartsAtom c
      → dispatch junk n rest 0 c d ≡ (do ungetc; _ ← copy_atom junk n; atom_token) d
  dispatch-atom n rest c d s = rw (s.1, s.2, s.3, s.4, s.5, s.6, s.7, s.8, s.9, s.11) refl

  atom_token-token_of :
      (d : Device) (w : List ℕ)
      → c_string d.iod_buffer ≡ some w
      → atom_token d ≡ some (token_of w, d)
  unfolding atom_token
  atom_token-token_of d w e = rw (atom_token, e) refl

  -- An atom whose first character is not special and that ends at a space, a brace, a new line or
  -- the NUL is one token: the buffer then holds it in lower case, and the device stands at its end.
  pub lex_from-atom :
      (n : ℕ) (d : Device) (c : ℕ) (cs : List ℕ) (e : ℕ)
      → IsReady d
      → StartsAtom c
      → At d.iod_string d.iod_pos ((c ∷ cs) ++ (e ∷ []))
      → Accepted is_in_atom (c ∷ cs)
      → Stops is_in_atom e
      → length (c ∷ cs) < 2 ^ 31
      → length (c ∷ cs) < n
      → (b : List ℕ) × (2 ≤ length b)
        × (c_string b ≡ some (map to_lower (c ∷ cs)))
        × (lex_from junk (suc n) 0 d
            ≡ some (token_of (map to_lower (c ∷ cs)), read d (length (c ∷ cs)) b))
  unfolding copy_atom
  lex_from-atom n d c cs e w s text ok stops small fuel =
      let (old, holds) = Holds-nil d.iod_buffer (omega (arith, w.sized)) in
      let (b, long, (ys, holds'), run) =
        copy_while-word junk is_in_atom to_lower n d [] c cs old e w.sized holds (omega arith) text
          ok stops fuel in
      let str : c_string b ≡ some (map to_lower (c ∷ cs)) =
        ap c_string holds'
        ∙ c_string-Holds (map to_lower (c ∷ cs)) ys (lower-Accepted is_in_atom (c ∷ cs) ok) in
      (
        b,
        long,
        str,
        lex_from-suc n 0 d c text.0 s.0 s.10
            ∙ dispatch-atom n (lex_from junk n) c (after_getc d) s
            ∙ rw (ungetc_lem d c w.counted text.0, copy_atom, run)
                (atom_token-token_of (read d (length (c ∷ cs)) b) (map to_lower (c ∷ cs)) str),
      )

  digit_cases : (c : ℕ) → is_digit c ≡ true → (48 ≤ c) × (c ≤ 57)
  digit_cases c h = ground (arith, h)

  dispatch-digit :
      (n op : ℕ) (rest : ℕ → Lex Token) (c : ℕ) (d : Device)
      → is_digit c ≡ true
      → dispatch junk n rest op c d ≡ (do ungetc; _ ← copy_number junk n op; pure t_number) d
  dispatch-digit n op rest c d s =
      let (low, high) = digit_cases c s in
      let a : (c == 255) ≡ false = ground arith in
      let b : (c == 10) ≡ false = ground arith in
      let p : (c == 43) ≡ false = ground arith in
      let m : (c == 45) ≡ false = ground arith in rw (a, b, p, m, s) refl

  number-Accepted :
      (w : List ℕ) → Accepted is_valid_in_number w → Accepted (λ _. true) (map (λ c. c) w)
  number-Accepted [] ok = tt
  number-Accepted (c ∷ w) ok = (ok.0, refl, number-Accepted w ok.2)

  -- A number that begins with a digit and ends at a character that no number has, or at the NUL, is
  -- one token, and the buffer then holds it as it is written.
  pub lex_from-number :
      (n : ℕ) (d : Device) (c : ℕ) (cs : List ℕ) (e : ℕ)
      → IsReady d
      → is_digit c ≡ true
      → At d.iod_string d.iod_pos ((c ∷ cs) ++ (e ∷ []))
      → Accepted is_valid_in_number (c ∷ cs)
      → Stops is_valid_in_number e
      → length (c ∷ cs) < 2 ^ 31
      → length (c ∷ cs) < n
      → (b : List ℕ) × (2 ≤ length b)
        × (c_string b ≡ some (map (λ x. x) (c ∷ cs)))
        × (lex_from junk (suc n) 0 d ≡ some (t_number, read d (length (c ∷ cs)) b))
  unfolding copy_number
  lex_from-number n d c cs e w s text ok stops small fuel =
      let (old, holds) = Holds-nil d.iod_buffer (omega (arith, w.sized)) in
      let (b, long, (ys, holds'), run) =
        copy_while-word junk is_valid_in_number (λ x. x) n d [] c cs old e w.sized holds
          (omega arith) text ok stops fuel in
      let str : c_string b ≡ some (map (λ x. x) (c ∷ cs)) =
        ap c_string holds'
        ∙ c_string-Holds (map (λ x. x) (c ∷ cs)) ys (number-Accepted (c ∷ cs) ok) in
      let (low, high) = digit_cases c s in
      (
        b,
        long,
        str,
        lex_from-suc n 0 d c text.0 ok.0 (ground arith)
            ∙ dispatch-digit n 0 (lex_from junk n) c (after_getc d) s
            ∙ rw (ungetc_lem d c w.counted text.0, copy_number, run) refl,
      )
