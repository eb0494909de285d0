-- ===== src/Compile/Expr/Reads.antt =====
-- Which lexemes the expressions of the language are read from.
use ak_lisp.Base.{ℕ, true, false, Option, none, some, List, [], ◌∷◌, ◌++◌, ◌≡◌, get_elem?}
use ak_lisp.Values.{Body, value, vt_nil, vt_true, vt_symbol, vt_number, vt_string}
use ak_lisp.Machine.Exec.{Globals, Form, sif, when, swhile, set_form}
use ak_lisp.Compile.Parse.{Lexeme, atom, number, string, nil, true_atom, lbrace, rbrace, quote}
use ak_lisp.Compile.Parse.RoundTrip.{written_body, is_datum_body}
use ak_lisp.Compile.Forms.{
  Compiler, pf_fn_not_found, pf_fn_normal, pf_fn_sform, prefetch_function, argument_finder,
}
use ak_lisp.Compile.Lists.{form_of}
use ak_lisp.Compile.Expr.{
  Expr, const, name, apply, if_of, when_of, while_of, set_of, Exprs, no_exprs, then_expr,
}

-- A token that stands for a value without a quotation mark.
pub data Plain : Lexeme → Body → Type 0 where
  plain_number : (k : ℕ) → Plain (number k) (vt_number k)
  plain_string : (s : List ℕ) → Plain (string s) (vt_string s)
  plain_nil : Plain nil vt_nil
  plain_true : Plain true_atom vt_true

module _ {G : Type 0} (vars : Globals G) (c : Compiler G) where
  -- The function that a call of `s` is built with, and the special form that `s` names.
  pub data Callee (s : ℕ) : Option ℕ → Type 0 where
    callee_unknown : prefetch_function vars c s ≡ (pf_fn_not_found, none) → Callee s none
    callee_normal :
        (f : ℕ) → prefetch_function vars c s ≡ (pf_fn_normal, some f) → Callee s (some f)

  abbrev pub Names : ℕ → Form → Type 0
  Names s k =
      (f : ℕ) × (prefetch_function vars c s ≡ (pf_fn_sform, some f))
      × (form_of (get_elem? c.functions f) ≡ some k)

  -- `Item ts e us`: as an argument of a call, `e` is read from `ts` and `us` are left. `Next` is the
  -- same for a part of a special form, where a name without a quotation mark is a symbol, and `Call`
  -- and `Items` the same behind the left brace and behind the name of a call.
  mutual
    pub data Item : List Lexeme → Expr → List Lexeme → Type 0 where
      item_plain :
          {t : Lexeme} {b : Body} {us : List Lexeme}
          → Plain t b
          → Item (t ∷ us) (const (value true b)) us
      item_quoted :
          {b : Body} {us : List Lexeme}
          → is_datum_body b ≡ true
          → Item (quote ∷ (written_body b ++ us)) (const (value true b)) us
      item_name :
          {s : ℕ} {us : List Lexeme} → Item (atom s ∷ us) (name (argument_finder c.args s) s) us
      item_call : {ts us : List Lexeme} {e : Expr} → Call ts e us → Item (lbrace ∷ ts) e us

    pub data Next : List Lexeme → Expr → List Lexeme → Type 0 where
      next_plain :
          {t : Lexeme} {b : Body} {us : List Lexeme}
          → Plain t b
          → Next (t ∷ us) (const (value false b)) us
      next_symbol :
          {s : ℕ} {us : List Lexeme} → Next (atom s ∷ us) (const (value false (vt_symbol s))) us
      next_quoted :
          {b : Body} {us : List Lexeme}
          → is_datum_body b ≡ true
          → Next (quote ∷ (written_body b ++ us)) (const (value true b)) us
      next_call : {ts us : List Lexeme} {e : Expr} → Call ts e us → Next (lbrace ∷ ts) e us

    pub data Call : List Lexeme → Expr → List Lexeme → Type 0 where
      call_apply :
          {s : ℕ} {fn : Option ℕ} {ts us : List Lexeme} {es : Exprs}
          → Callee s fn
          → Items ts es us
          → Call (atom s ∷ ts) (apply s fn es) us
      call_if :
          {s : ℕ} {ts us : List Lexeme} (ts1 ts2 : List Lexeme) {a b d : Expr}
          → Names s sif
          → Next ts a ts1
          → Next ts1 b ts2
          → Next ts2 d (rbrace ∷ us)
          → Call (atom s ∷ ts) (if_of a b d) us
      call_when :
          {s : ℕ} {ts us : List Lexeme} (ts1 : List Lexeme) {a b : Expr}
          → Names s when
          → Next ts a ts1
          → Next ts1 b (rbrace ∷ us)
          → Call (atom s ∷ ts) (when_of a b) us
      call_while :
          {s : ℕ} {ts us : List Lexeme} (ts1 : List Lexeme) {a b : Expr}
          → Names s swhile
          → Next ts a ts1
          → Next ts1 b (rbrace ∷ us)
          → Call (atom s ∷ ts) (while_of a b) us
      call_set :
          {s x : ℕ} {ts us : List Lexeme} {e : Expr}
          → Names s set_form
          → Next ts e (rbrace ∷ us)
          → Call (atom s ∷ (atom x ∷ ts)) (set_of x e) us

    pub data Items : List Lexeme → Exprs → List Lexeme → Type 0 where
      items_end : {us : List Lexeme} → Items (rbrace ∷ us) no_exprs us
      items_more :
          {ts us : List Lexeme} (ts1 : List Lexeme) {e : Expr} {es : Exprs}
          → Item ts e ts1
          → Items ts1 es us
          → Items ts (then_expr e es) us

  -- A whole program is read to the end of the input.
  pub data Program : List Lexeme → Exprs → Type 0 where
    program_end : Program [] no_exprs
    program_more :
        {ts : List Lexeme} (ts1 : List Lexeme) {e : Expr} {es : Exprs}
        → Next ts e ts1
        → Program ts1 es
        → Program ts (then_expr e es)
