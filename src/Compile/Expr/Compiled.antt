-- ===== src/Compile/Expr/Compiled.antt =====
-- `akl_compile_list` on the lexemes of an expression builds the code of that expression.
use mathlib.Core.Path.{subst}
use ak_lisp.Base.{
  ℕ, suc, ◌+◌, ◌<◌, true, false, Option, none, some, List, ◌∷◌, ◌++◌, ◌≡◌, ap, ◌∙◌, arith, length,
  if◌then◌else◌,
}
use ak_lisp.Values.{
  Body, value, vt_nil, vt_true, vt_symbol, vt_variable, vt_number, vt_string, vt_list, vt_function,
  vt_userdata,
}
use ak_lisp.Machine.Code.{Code, build_call}
use ak_lisp.Machine.Exec.{Globals, Form}
use ak_lisp.Compile.Parse.{
  Lexeme, atom, number, string, nil, true_atom, lbrace, rbrace, quote, parse_token,
}
use ak_lisp.Compile.Parse.RoundTrip.{written_body, written_all, is_datum_body, body-ParsesToken}
use ak_lisp.Compile.Forms.{
  Compiler, Locals, at_start, PrefetchStatus, pf_fn_not_found, pf_fn_normal, pf_fn_sform,
  prefetch_function, argument_finder, compile_next, call_sform,
}
use ak_lisp.Compile.Lists.{
  sform_at, sform_called, function_name, constant, nested, unquoted_token, interrupted, token,
  compile_list_from,
}
use ak_lisp.Compile.Expr.{
  Expr, const, name, apply, Exprs, no_exprs, then_expr, count, code_of, code_of_all,
}
use ak_lisp.Compile.Expr.Reads.{
  Plain, plain_number, plain_string, plain_nil, plain_true, Callee, callee_unknown, callee_normal,
  Names,
}

-- A statement on fuel holds from some number on.
abbrev pub Enough : (ℕ → Type 0) → Type 0
Enough P = (k : ℕ) × ((n : ℕ) → P (k + n))

pub Enough-suc : (P : ℕ → Type 0) → Enough (λ n. P (suc n)) → Enough P
Enough-suc P (k, h) = (suc k, λ n. subst P (omega arith) (h n))

pub Enough-both :
    (P Q R : ℕ → Type 0) → ((n : ℕ) → P n → Q n → R n) → Enough P → Enough Q → Enough R
Enough-both P Q R f (j, h) (k, h2) = (
  j + k,
  λ n. f (j + k + n) (subst P (omega arith) (h (k + n))) (subst Q (omega arith) (h2 (j + n))),
)

pub Enough-map : (P Q : ℕ → Type 0) → ((n : ℕ) → P n → Q n) → Enough P → Enough Q
Enough-map P Q f (k, h) = (k, λ n. f (k + n) (h n))

module _ {G : Type 0} (vars : Globals G) (c : Compiler G) where
  -- The compiler in front of the lexemes `ts` with the code `k`.
  abbrev pub at : List Lexeme → Code → Compiler G
  at ts k = record c { rest = ts; code = k }

  abbrev pub ListCompiled : List Lexeme → Expr → List Lexeme → ℕ → Type 0
  ListCompiled ts e us n =
      (k : Code) → compile_list_from vars n at_start (at ts k) ≡ some (none, at us (code_of e k))

  abbrev pub NextCompiled : List Lexeme → Expr → List Lexeme → ℕ → Type 0
  NextCompiled ts e us n =
      (k : Code)
      → compile_next n (λ d. compile_list_from vars n at_start d) (at ts k)
        ≡ some (false, none, at us (code_of e k))

  -- The variables of the loop in a call of `s` behind `a` arguments.
  abbrev pub in_call : ℕ → PrefetchStatus → Option ℕ → ℕ → Locals
  in_call s st fn a = record { argc = a; felem = false; pf_st = st; fun = fn; fsym = some s }

  abbrev pub ItemCompiled : List Lexeme → Expr → List Lexeme → ℕ → Type 0
  ItemCompiled ts e us n =
      (s : ℕ) (st : PrefetchStatus) (fn : Option ℕ) (a : ℕ) (k : Code)
      → compile_list_from vars (suc n) (in_call s st fn a) (at ts k)
        ≡ compile_list_from vars n (in_call s st fn (a + 1)) (at us (code_of e k))

  abbrev pub ItemsCompiled : List Lexeme → Exprs → List Lexeme → ℕ → Type 0
  ItemsCompiled ts es us n =
      (s : ℕ) (st : PrefetchStatus) (fn : Option ℕ) (a : ℕ) (k : Code)
      → compile_list_from vars n (in_call s st fn a) (at ts k)
        ≡ some (none, at us (build_call s fn (a + count es) (code_of_all es k)))

  module _ (calm : c.ai_interrupted ≡ false) where
    -- One round of the loop.
    pub iteration-calm :
        (n : ℕ) (l : Locals) (ts : List Lexeme) (k : Code)
        → compile_list_from vars (suc n) l (at ts k)
          ≡ unquoted_token vars n
              (λ d. compile_list_from vars n at_start d)
              (λ m d. compile_list_from vars n m d)
              ts
              l
              (at ts k)
    unfolding compile_list_from
    iteration-calm n l ts k =
        let list = λ (d : Compiler G). compile_list_from vars n at_start d in
        let go = λ (m : Locals) (d : Compiler G). compile_list_from vars n m d in
        ap
          (λ b.
            if b
            then interrupted vars n list go ts (at ts k)
            else unquoted_token vars n list go ts l (at ts k))
          calm

    pub Plain-Item :
        (t : Lexeme) (b : Body) (us : List Lexeme) (n : ℕ)
        → Plain t b
        → ItemCompiled (t ∷ us) (const (value true b)) us n
    unfolding token parse_token code_of
    Plain-Item _ _ us n (plain_number x) s st fn a k =
        iteration-calm n (in_call s st fn a) (number x ∷ us) k
    Plain-Item _ _ us n (plain_string x) s st fn a k =
        iteration-calm n (in_call s st fn a) (string x ∷ us) k
    Plain-Item _ _ us n plain_nil s st fn a k = iteration-calm n (in_call s st fn a) (nil ∷ us) k
    Plain-Item _ _ us n plain_true s st fn a k =
        iteration-calm n (in_call s st fn a) (true_atom ∷ us) k

    pub name-Item :
        (x : ℕ) (us : List Lexeme) (n : ℕ)
        → ItemCompiled (atom x ∷ us) (name (argument_finder c.args x) x) us n
    unfolding token code_of
    name-Item x us n s st fn a k = iteration-calm n (in_call s st fn a) (atom x ∷ us) k

    pub quoted-Item :
        (b : Body) (us : List Lexeme) (n : ℕ)
        → is_datum_body b ≡ true
        → length (written_body b) < suc n
        → ItemCompiled (quote ∷ (written_body b ++ us)) (const (value true b)) us n
    unfolding token parse_token code_of written_body is_datum_body
    quoted-Item vt_nil us n d lt s st fn a k =
        iteration-calm n (in_call s st fn a) (quote ∷ (nil ∷ us)) k
    quoted-Item vt_true us n d lt s st fn a k =
        iteration-calm n (in_call s st fn a) (quote ∷ (true_atom ∷ us)) k
    quoted-Item (vt_symbol x) us n d lt s st fn a k =
        iteration-calm n (in_call s st fn a) (quote ∷ (atom x ∷ us)) k
    quoted-Item (vt_number x) us n d lt s st fn a k =
        iteration-calm n (in_call s st fn a) (quote ∷ (number x ∷ us)) k
    quoted-Item (vt_string x) us n d lt s st fn a k =
        iteration-calm n (in_call s st fn a) (quote ∷ (string x ∷ us)) k
    quoted-Item (vt_list q vs) us n d lt s st fn a k =
        let list = λ (d : Compiler G). compile_list_from vars n at_start d in
        let go = λ (m : Locals) (d : Compiler G). compile_list_from vars n m d in
        let l = in_call s st fn a in
        let ts = written_body (vt_list q vs) ++ us in
        iteration-calm n l (quote ∷ ts) k
        ∙ ap (constant vars n list go l (at (written_all vs ++ us) k))
            (body-ParsesToken (vt_list q vs) n true us d lt)
    quoted-Item (vt_variable x) us n d lt s st fn a k = ground arith
    quoted-Item (vt_function x) us n d lt s st fn a k = ground arith
    quoted-Item (vt_userdata t p) us n d lt s st fn a k = ground arith

    pub call-Item :
        (ts us : List Lexeme) (e : Expr) (n : ℕ)
        → ListCompiled ts e us n
        → ItemCompiled (lbrace ∷ ts) e us n
    unfolding token
    call-Item ts us e n h s st fn a k =
        let list = λ (d : Compiler G). compile_list_from vars n at_start d in
        let go = λ (m : Locals) (d : Compiler G). compile_list_from vars n m d in
        iteration-calm n (in_call s st fn a) (lbrace ∷ ts) k
        ∙ ap (nested vars n list go (in_call s st fn a)) (h k)

    pub end-Items : (us : List Lexeme) (n : ℕ) → ItemsCompiled (rbrace ∷ us) no_exprs us (suc n)
    unfolding token code_of
    end-Items us n s st fn a k =
        iteration-calm n (in_call s st fn a) (rbrace ∷ us) k
        ∙ ap (λ i. some (none, at us (build_call s fn i k))) (omega arith)

    pub more-Items :
        (ts ts1 us : List Lexeme) (e : Expr) (es : Exprs) (n : ℕ)
        → ItemCompiled ts e ts1 n
        → ItemsCompiled ts1 es us n
        → ItemsCompiled ts (then_expr e es) us (suc n)
    unfolding code_of
    more-Items ts ts1 us e es n h hs s st fn a k =
        h s st fn a k
        ∙ hs s st fn (a + 1) (code_of e k)
        ∙ ap (λ i. some (none, at us (build_call s fn i (code_of_all es (code_of e k)))))
            (omega arith)

    pub apply-List :
        (s : ℕ) (fn : Option ℕ) (ts us : List Lexeme) (es : Exprs) (n : ℕ)
        → Callee vars c s fn
        → ItemsCompiled ts es us n
        → ListCompiled (atom s ∷ ts) (apply s fn es) us (suc n)
    unfolding token prefetch_function code_of
    apply-List s _ ts us es n (callee_unknown e) h k =
        let list = λ (d : Compiler G). compile_list_from vars n at_start d in
        let go = λ (m : Locals) (d : Compiler G). compile_list_from vars n m d in
        iteration-calm n at_start (atom s ∷ ts) k
        ∙ ap (λ r. function_name vars n list go s r at_start (at ts k)) e
        ∙ h s pf_fn_not_found none 0 k
        ∙ ap (λ i. some (none, at us (build_call s none i (code_of_all es k)))) (omega arith)
    apply-List s _ ts us es n (callee_normal f e) h k =
        let list = λ (d : Compiler G). compile_list_from vars n at_start d in
        let go = λ (m : Locals) (d : Compiler G). compile_list_from vars n m d in
        iteration-calm n at_start (atom s ∷ ts) k
        ∙ ap (λ r. function_name vars n list go s r at_start (at ts k)) e
        ∙ h s pf_fn_normal (some f) 0 k
        ∙ ap (λ i. some (none, at us (build_call s (some f) i (code_of_all es k)))) (omega arith)

    -- A special form that returns NULL in front of the right brace.
    pub form-List :
        (s : ℕ) (form : Form) (ts us : List Lexeme) (n : ℕ) (k k2 : Code)
        → Names vars c s form
        → call_sform vars
            (λ d. compile_next (suc n) (λ x. compile_list_from vars (suc n) at_start x) d)
            form
            (at ts k)
          ≡ some (none, at (rbrace ∷ us) k2)
        → compile_list_from vars (suc (suc n)) at_start (at (atom s ∷ ts) k) ≡ some (none, at us k2)
    unfolding token prefetch_function
    form-List s form ts us n k k2 (f, e, is_form) h =
        let list = λ (d : Compiler G). compile_list_from vars (suc n) at_start d in
        let go = λ (m : Locals) (d : Compiler G). compile_list_from vars (suc n) m d in
        let l = record at_start { pf_st = pf_fn_sform; fun = some f } in
        iteration-calm (suc n) at_start (atom s ∷ ts) k
        ∙ ap (λ r. function_name vars (suc n) list go s r at_start (at ts k)) e
        ∙ ap
            (λ o.
              sform_at vars (suc n) list go o (record at_start { pf_st = pf_fn_sform }) (at ts k))
            is_form
        ∙ ap (sform_called vars (suc n) list go (record at_start { pf_st = pf_fn_sform })) h
        ∙ iteration-calm n (record at_start { felem = false; pf_st = pf_fn_sform; fun = none })
            (rbrace ∷ us) k2
