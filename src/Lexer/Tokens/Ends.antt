-- ===== src/Lexer/Tokens/Ends.antt =====
-- Where `akl_lex` leaves the string, and where it loses a sign.
use ak_lisp.Base.{
  ℕ, suc, ◌+◌, ◌^◌, ◌<◌, ◌≡◌, refl, ◌∙◌, false, ◌⊎◌, inl, inr, none, some, [], ◌∷◌, arith,
  get_elem?, ◌==◌,
}
use ak_lisp.Vector.{u32}
use ak_lisp.Lexer.Device.{t_eof, t_lbrace, Device, getc, is_eof}
use ak_lisp.Lexer.Words.Copied.{At}
use ak_lisp.Lexer.Tokens.{lex, lex_from, skip_comment, set_column}
use ak_lisp.Lexer.Tokens.Atoms.{IsReady, after_getc, getc_lem, ungetc_lem, lex_from-suc}
use ak_lisp.Lexer.Tokens.Words.{lex-lex_from}

module _ (junk : ℕ) where
  lex_from-nul :
      (n op : ℕ) (d : Device)
      → get_elem? d.iod_string d.iod_pos ≡ some 0
      → lex_from junk (suc n) op d ≡ some (t_eof, after_getc d)
  unfolding lex_from
  lex_from-nul n op d here = rw (lex_from, getc_lem d 0 here) refl

  lex_from-outside :
      (n op : ℕ) (d : Device)
      → get_elem? d.iod_string d.iod_pos ≡ none
      → lex_from junk (suc n) op d ≡ none
  unfolding lex_from getc
  lex_from-outside n op d here = rw (lex_from, getc, here) refl

  -- A call of `akl_lex` at the NUL of the string returns the end of the input, but steps over the
  -- NUL: the next call reads outside the string.
  pub lex-lex :
      (n m : ℕ) (d : Device)
      → IsReady d
      → get_elem? d.iod_string d.iod_pos ≡ some 0
      → get_elem? d.iod_string (d.iod_pos + 1) ≡ none
      → (d' : Device) × (lex junk (suc n) d ≡ some (t_eof, d')) × (lex junk (suc m) d' ≡ none)
  lex-lex n m d w here out =
      let w' : IsReady (after_getc d) = record {
        sized = w.sized;
        backlog = w.backlog;
        counted = omega arith;
      } in
      (
        after_getc d,
        lex-lex_from junk (suc n) d w ∙ lex_from-nul n 0 d here,
        lex-lex_from junk (suc m) (after_getc d) w' ∙ lex_from-outside m 0 (after_getc d) out,
      )

  lex_from-sign :
      (n op : ℕ) (d : Device)
      → get_elem? d.iod_string d.iod_pos ≡ some op
      → (op ≡ 43) ⊎ (op ≡ 45)
      → lex_from junk (suc n) 0 d ≡ lex_from junk n op (after_getc d)
  lex_from-sign n op d here (inl e) =
      lex_from-suc junk n 0 d op here (rw e refl) (rw e refl) ∙ rw e refl
  lex_from-sign n op d here (inr e) =
      lex_from-suc junk n 0 d op here (rw e refl) (rw e refl) ∙ rw e refl

  -- A sign that stands directly before the NUL is lost: the call returns the end of the input.
  pub lex-sign :
      (n op : ℕ) (d : Device)
      → IsReady d
      → (op ≡ 43) ⊎ (op ≡ 45)
      → At d.iod_string d.iod_pos (op ∷ 0 ∷ [])
      → lex junk (suc (suc n)) d ≡ some (t_eof, after_getc (after_getc d))
  lex-sign n op d w sign text =
      lex-lex_from junk (suc (suc n)) d w
      ∙ lex_from-sign (suc n) op d text.0 sign
      ∙ lex_from-nul n op (after_getc d) text.1.0

  -- A sign that stands directly before an opening brace is lost: the call returns the token of the
  -- brace and stands behind it.
  pub lex-sign_lbrace :
      (n op c : ℕ) (d : Device)
      → IsReady d
      → (op ≡ 43) ⊎ (op ≡ 45)
      → At d.iod_string d.iod_pos (op ∷ 40 ∷ c ∷ [])
      → (c == 41) ≡ false
      → (d' : Device) × (lex junk (suc (suc n)) d ≡ some (t_lbrace, d'))
        × (d'.iod_pos ≡ d.iod_pos + 1 + 1)
  unfolding set_column
  lex-sign_lbrace n op c d w sign text o =
      let d1 = after_getc d in
      let d2 = after_getc d1 in
      let d3 = record d2 { iod_column = u32 (d2.iod_char_count + 1) } in
      let small : d3.iod_char_count < 2 ^ 32 = omega arith in
      (
        d3,
        lex-lex_from junk (suc (suc n)) d w
            ∙ lex_from-sign (suc n) op d text.0 sign
            ∙ lex_from-suc junk n op d1 40 text.1.0 refl refl
            ∙ rw (getc_lem d3 c text.1.1.0, o, ungetc_lem d3 c small text.1.1.0) refl,
        refl,
      )

  -- A comment sign that stands directly before the NUL makes the call read outside the string.
  pub lex-comment :
      (n : ℕ) (d : Device)
      → IsReady d
      → At d.iod_string d.iod_pos (59 ∷ 0 ∷ [])
      → get_elem? d.iod_string (d.iod_pos + 1 + 1) ≡ none
      → lex junk (suc (suc n)) d ≡ none
  unfolding skip_comment is_eof
  lex-comment n d w text out =
      lex-lex_from junk (suc (suc n)) d w
      ∙ lex_from-suc junk (suc n) 0 d 59 text.0 refl refl
      ∙ rw (skip_comment, getc_lem (after_getc d) 0 text.1.0, is_eof, out) refl
