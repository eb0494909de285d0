-- ===== src/Compile/Expr/Correct.antt =====
-- `akl_compile_next` and `akl_compile_list` on all expressions.
use mathlib.Core.Path.{subst}
use mathlib.Core.Option
use ak_lisp.Base.{ℕ, suc, ◌+◌, ◌<◌, true, false, List, ◌∷◌, ◌++◌, ◌≡◌, refl, ap, arith, length}
use ak_lisp.Values.{
  Body, value, vt_nil, vt_true, vt_symbol, vt_variable, vt_number, vt_string, vt_list, vt_function,
  vt_userdata,
}
use ak_lisp.Machine.Code.{jmp, jn, build_label, build_jump, new_labels}
use ak_lisp.Machine.Code.Blocks.{if_code, when_code, while_code}
use ak_lisp.Machine.Exec.{Globals, sif, when, swhile, set_form}
use ak_lisp.Compile.Parse.{Lexeme, atom, lbrace, rbrace, quote, parse_token}
use ak_lisp.Compile.Parse.RoundTrip.{written_body, is_datum_body, body-ParsesToken}
use ak_lisp.Compile.Forms.{Compiler, at_start, pushed, compile_next, compile_next_on, call_sform}
use ak_lisp.Compile.Lists.{compile_list_from}
use ak_lisp.Compile.Expr.{
  Expr, const, apply, if_of, when_of, while_of, set_of, Exprs, no_exprs, then_expr, code_of,
}
use ak_lisp.Compile.Expr.Reads.{
  Plain, plain_number, plain_string, plain_nil, plain_true, Names, Item, item_plain, item_quoted,
  item_name, item_call, Next, next_plain, next_symbol, next_quoted, next_call, Call, call_apply,
  call_if, call_when, call_while, call_set, Items, items_end, items_more,
}
use ak_lisp.Compile.Expr.Sforms.{sfun_sif-Part, sfun_when-Part, sfun_swhile-Part, sfun_set-Part}
use ak_lisp.Compile.Expr.Compiled.{
  Enough, Enough-suc, Enough-both, Enough-map, at, ListCompiled, NextCompiled, ItemCompiled,
  ItemsCompiled, Plain-Item, name-Item, quoted-Item, call-Item, end-Items, more-Items, apply-List,
  form-List,
}

Enough-next : (P : ℕ → Type 0) → Enough P → Enough (λ n. P (suc n))
Enough-next P (k, h) = (k, λ n. subst P (omega arith) (h (suc n)))

module _ {G : Type 0} (vars : Globals G) (c : Compiler G) where
  Plain-Next :
      (t : Lexeme) (b : Body) (us : List Lexeme) (n : ℕ)
      → Plain t b
      → NextCompiled vars c (t ∷ us) (const (value false b)) us n
  unfolding compile_next_on parse_token code_of
  Plain-Next _ _ us n (plain_number x) k = refl
  Plain-Next _ _ us n (plain_string x) k = refl
  Plain-Next _ _ us n plain_nil k = refl
  Plain-Next _ _ us n plain_true k = refl

  symbol-Next :
      (s : ℕ) (us : List Lexeme) (n : ℕ)
      → NextCompiled vars c (atom s ∷ us) (const (value false (vt_symbol s))) us n
  unfolding compile_next_on parse_token code_of
  symbol-Next s us n k = refl

  quoted-Next :
      (b : Body) (us : List Lexeme) (n : ℕ)
      → is_datum_body b ≡ true
      → length (written_body b) < suc n
      → NextCompiled vars c (quote ∷ (written_body b ++ us)) (const (value true b)) us n
  unfolding compile_next_on parse_token code_of written_body is_datum_body
  quoted-Next vt_nil us n d lt k = refl
  quoted-Next vt_true us n d lt k = refl
  quoted-Next (vt_symbol x) us n d lt k = refl
  quoted-Next (vt_number x) us n d lt k = refl
  quoted-Next (vt_string x) us n d lt k = refl
  quoted-Next (vt_list q vs) us n d lt k =
      ap (pushed false (at vars c (quote ∷ (written_body (vt_list q vs) ++ us)) k))
        (body-ParsesToken (vt_list q vs) n true us d lt)
  quoted-Next (vt_variable x) us n d lt k = ground arith
  quoted-Next (vt_function x) us n d lt k = ground arith
  quoted-Next (vt_userdata t p) us n d lt k = ground arith

  call-Next :
      (ts us : List Lexeme) (e : Expr) (n : ℕ)
      → ListCompiled vars c ts e us n
      → NextCompiled vars c (lbrace ∷ ts) e us n
  unfolding compile_next_on
  call-Next ts us e n h k = ap (Option.map (λ r. (false, r.0, r.1))) (h k)

  module _ (calm : c.ai_interrupted ≡ false) where
    if-List :
        (s : ℕ) (ts ts1 ts2 us : List Lexeme) (a b d : Expr) (n : ℕ)
        → Names vars c s sif
        → NextCompiled vars c ts a ts1 (suc n)
        → NextCompiled vars c ts1 b ts2 (suc n)
        → NextCompiled vars c ts2 d (rbrace ∷ us) (suc n)
        → ListCompiled vars c (atom s ∷ ts) (if_of a b d) us (suc (suc n))
    unfolding call_sform code_of if_code new_labels
    if-List s ts ts1 ts2 us a b d n names ha hb hd k =
        let next = λ (x : Compiler G).
          compile_next (suc n) (λ y. compile_list_from vars (suc n) at_start y) x in
        let l = length k.labels in
        let k1 = code_of a (new_labels 2 k).1 in
        let k3 = code_of b (build_jump jn (l + 1) k1) in
        let k5 = build_label (l + 1) (build_jump jmp l k3) in
        form-List vars c calm s sif ts us n k (code_of (if_of a b d) k) names (
          sfun_sif-Part vars next (at vars c ts k) (at vars c ts1 k1) (at vars c ts2 k3)
            (at vars c (rbrace ∷ us) (code_of d k5)) (ha (new_labels 2 k).1)
            (hb (build_jump jn (l + 1) k1)) (hd k5))

    when-List :
        (s : ℕ) (ts ts1 us : List Lexeme) (a b : Expr) (n : ℕ)
        → Names vars c s when
        → NextCompiled vars c ts a ts1 (suc n)
        → NextCompiled vars c ts1 b (rbrace ∷ us) (suc n)
        → ListCompiled vars c (atom s ∷ ts) (when_of a b) us (suc (suc n))
    unfolding call_sform code_of when_code new_labels
    when-List s ts ts1 us a b n names ha hb k =
        let next = λ (x : Compiler G).
          compile_next (suc n) (λ y. compile_list_from vars (suc n) at_start y) x in
        let k1 = code_of a (new_labels 1 k).1 in
        let k2 = build_jump jn (length k.labels) k1 in
        form-List vars c calm s when ts us n k (code_of (when_of a b) k) names (
          sfun_when-Part vars next (at vars c ts k) (at vars c ts1 k1)
            (at vars c (rbrace ∷ us) (code_of b k2)) (ha (new_labels 1 k).1) (hb k2))

    while-List :
        (s : ℕ) (ts ts1 us : List Lexeme) (a b : Expr) (n : ℕ)
        → Names vars c s swhile
        → NextCompiled vars c ts a ts1 (suc n)
        → NextCompiled vars c ts1 b (rbrace ∷ us) (suc n)
        → ListCompiled vars c (atom s ∷ ts) (while_of a b) us (suc (suc n))
    unfolding call_sform code_of while_code new_labels
    while-List s ts ts1 us a b n names ha hb k =
        let next = λ (x : Compiler G).
          compile_next (suc n) (λ y. compile_list_from vars (suc n) at_start y) x in
        let l = length k.labels in
        let k0 = build_label l (new_labels 2 k).1 in
        let k2 = build_jump jn (l + 1) (code_of a k0) in
        form-List vars c calm s swhile ts us n k (code_of (while_of a b) k) names (
          sfun_swhile-Part vars next (at vars c ts k) (at vars c ts1 (code_of a k0))
            (at vars c (rbrace ∷ us) (code_of b k2)) (ha k0) (hb k2))

    set-List :
        (s x : ℕ) (ts us : List Lexeme) (e : Expr) (n : ℕ)
        → Names vars c s set_form
        → NextCompiled vars c ts e (rbrace ∷ us) (suc n)
        → ListCompiled vars c (atom s ∷ (atom x ∷ ts)) (set_of x e) us (suc (suc n))
    unfolding call_sform code_of
    set-List s x ts us e n names h k =
        let next = λ (y : Compiler G).
          compile_next (suc n) (λ z. compile_list_from vars (suc n) at_start z) y in
        form-List vars c calm s set_form (atom x ∷ ts) us n k (code_of (set_of x e) k) names (
          sfun_set-Part vars next (at vars c ts k) (at vars c (rbrace ∷ us) (code_of e k)) x ts
            (h k))

    Enough-suc_twice : (P : ℕ → Type 0) → Enough (λ n. P (suc (suc n))) → Enough P
    Enough-suc_twice P h = Enough-suc P (Enough-suc (λ n. P (suc n)) h)

    -- Fuel for two parts of a form.
    two_parts :
        (P Q R : ℕ → Type 0)
        → ((n : ℕ) → P (suc n) → Q (suc n) → R (suc (suc n)))
        → Enough P
        → Enough Q
        → Enough R
    two_parts P Q R f p q = Enough-suc_twice R (
        Enough-both (λ n. P (suc n)) (λ n. Q (suc n)) (λ n. R (suc (suc n))) f (Enough-next P p)
          (Enough-next Q q))

    mutual
      Item-Enough :
          {ts us : List Lexeme} {e : Expr}
          → Item vars c ts e us
          → Enough (ItemCompiled vars c ts e us)
      Item-Enough (item_plain {t} {b} {us} h) = (0, λ n. Plain-Item vars c calm t b us (0 + n) h)
      Item-Enough (item_quoted {b} {us} d) = (
        length (written_body b),
        λ n. quoted-Item vars c calm b us (length (written_body b) + n) d (omega arith),
      )
      Item-Enough (item_name {s} {us}) = (0, λ n. name-Item vars c calm s us (0 + n))
      Item-Enough (item_call {ts} {us} {e} h) =
          Enough-map (ListCompiled vars c ts e us) (ItemCompiled vars c (lbrace ∷ ts) e us)
            (call-Item vars c calm ts us e) (Call-Enough h)

      pub next-Enough :
          {ts us : List Lexeme} {e : Expr}
          → Next vars c ts e us
          → Enough (NextCompiled vars c ts e us)
      next-Enough (next_plain {t} {b} {us} h) = (0, λ n. Plain-Next t b us (0 + n) h)
      next-Enough (next_symbol {s} {us}) = (0, λ n. symbol-Next s us (0 + n))
      next-Enough (next_quoted {b} {us} d) = (
        length (written_body b),
        λ n. quoted-Next b us (length (written_body b) + n) d (omega arith),
      )
      next-Enough (next_call {ts} {us} {e} h) =
          Enough-map (ListCompiled vars c ts e us) (NextCompiled vars c (lbrace ∷ ts) e us)
            (call-Next ts us e) (Call-Enough h)

      Call-Enough :
          {ts us : List Lexeme} {e : Expr}
          → Call vars c ts e us
          → Enough (ListCompiled vars c ts e us)
      Call-Enough (call_apply {s} {fn} {ts} {us} {es} callee h) =
          let target = ListCompiled vars c (atom s ∷ ts) (apply s fn es) us in
          Enough-suc target (
            Enough-map (ItemsCompiled vars c ts es us) (λ n. target (suc n))
              (λ n. apply-List vars c calm s fn ts us es n callee) (Items-Enough h))
      Call-Enough (call_if {s} {ts} {us} ts1 ts2 {a} {b} {d} names ha hb hd) =
          let target = ListCompiled vars c (atom s ∷ ts) (if_of a b d) us in
          two_parts (λ n. NextCompiled vars c ts a ts1 n × NextCompiled vars c ts1 b ts2 n)
            (NextCompiled vars c ts2 d (rbrace ∷ us)) target
            (λ n p q. if-List s ts ts1 ts2 us a b d n names p.0 p.1 q)
            (Enough-both (NextCompiled vars c ts a ts1) (NextCompiled vars c ts1 b ts2)
              (λ n. NextCompiled vars c ts a ts1 n × NextCompiled vars c ts1 b ts2 n)
              (λ n p q. (p, q)) (next-Enough ha) (next-Enough hb))
            (next-Enough hd)
      Call-Enough (call_when {s} {ts} {us} ts1 {a} {b} names ha hb) =
          two_parts (NextCompiled vars c ts a ts1) (NextCompiled vars c ts1 b (rbrace ∷ us))
            (ListCompiled vars c (atom s ∷ ts) (when_of a b) us)
            (λ n. when-List s ts ts1 us a b n names) (next-Enough ha) (next-Enough hb)
      Call-Enough (call_while {s} {ts} {us} ts1 {a} {b} names ha hb) =
          two_parts (NextCompiled vars c ts a ts1) (NextCompiled vars c ts1 b (rbrace ∷ us))
            (ListCompiled vars c (atom s ∷ ts) (while_of a b) us)
            (λ n. while-List s ts ts1 us a b n names) (next-Enough ha) (next-Enough hb)
      Call-Enough (call_set {s} {x} {ts} {us} {e} names h) =
          let source = NextCompiled vars c ts e (rbrace ∷ us) in
          let target = ListCompiled vars c (atom s ∷ (atom x ∷ ts)) (set_of x e) us in
          Enough-suc_twice target (
            Enough-map (λ n. source (suc n)) (λ n. target (suc (suc n)))
              (λ n. set-List s x ts us e n names) (Enough-next source (next-Enough h)))

      Items-Enough :
          {ts us : List Lexeme} {es : Exprs}
          → Items vars c ts es us
          → Enough (ItemsCompiled vars c ts es us)
      Items-Enough (items_end {us}) =
          Enough-suc (ItemsCompiled vars c (rbrace ∷ us) no_exprs us)
            (0, λ n. end-Items vars c calm us (0 + n))
      Items-Enough (items_more {ts} {us} ts1 {e} {es} h hs) =
          let target = ItemsCompiled vars c ts (then_expr e es) us in
          Enough-suc target (
            Enough-both (ItemCompiled vars c ts e ts1) (ItemsCompiled vars c ts1 es us)
              (λ n. target (suc n)) (λ n. more-Items vars c calm ts ts1 us e es n) (Item-Enough h)
              (Items-Enough hs))
