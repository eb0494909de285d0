-- ===== src/Compile/Forms.antt =====
-- The compiler of src/compile.c and the special forms of src/lib_spec.c.
use mathlib.Core.Option
use ak_lisp.Base.{
  ℕ, suc, ◌+◌, Bool, true, false, Option, none, some, List, [], ◌∷◌, ◌++◌, get_elem?, length, set,
  ◌==◌, if◌then◌else◌,
}
use ak_lisp.Values.{new_sym_value, new_function_value, var_to_function}
use ak_lisp.Machine.{Message, no_atom, no_defun, no_arguments}
use ak_lisp.Machine.Code.{
  Code, jmp, jn, empty, build_push, build_set, build_label, build_jump, new_labels,
}
use ak_lisp.Machine.Exec.{
  Function, Form, Globals, user, special, sif, lambda, when, swhile, defun, set_form,
}
use ak_lisp.Compile.Parse.{
  Lexeme, atom, string, nil, lbrace, rbrace, quote, Result, parse_token, parse_list,
}

pub data PrefetchStatus : Type 0 where
  pf_fn_not_found pf_fn_normal pf_fn_sform pf_not_fn : PrefetchStatus

-- The context of a compilation: the lexemes to come, the body and labels of `cx_comp_func` with its
-- arguments, the function objects by number, the variables, the errors and the flag of an interrupt.
pub record Compiler (G : Type 0) : Type 0 where
  pub rest : List Lexeme
  pub code : Code
  pub args : List ℕ
  pub functions : List Function
  pub globals : G
  pub errors : List Message
  pub ai_interrupted : Bool

-- The variables of `akl_compile_list`.
pub record Locals : Type 0 where
  pub argc : ℕ
  pub felem : Bool
  pub pf_st : PrefetchStatus
  pub fun : Option ℕ
  pub fsym : Option ℕ

abbrev pub at_start : Locals
at_start = record { argc = 0; felem = true; pf_st = pf_fn_not_found; fun = none; fsym = none }

-- A function or NULL, and the new state. The outer `none` is a fault, a loop that does not end, or
-- the want of fuel.
abbrev pub Compiled : Type 0 → Type 0
Compiled G = Option (Option ℕ × Compiler G)

-- `akl_compile_next` also tells whether its last token was the end of the input.
abbrev pub CompiledNext : Type 0 → Type 0
CompiledNext G = Option (Bool × Option ℕ × Compiler G)

abbrev pub is_eof : List Lexeme → Bool
is_eof [] = true
is_eof (t ∷ ts) = false

-- What a chain of calls does after a fault.
infixl 5 ◌>>=◌
abbrev pub ◌>>=◌ : {A B : Type 0} → Option A → (A → Option B) → Option B
none >>= f = none
some a >>= f = f a

abbrev pub pure : {A : Type 0} → A → Option A
pure a = some a

-- `argument_finder`
abbrev pub argument_finder : List ℕ → ℕ → Option ℕ
argument_finder [] s = none
argument_finder (a ∷ more) s =
    let found = argument_finder more s in if a == s then some 0 else Option.map (λ i. suc i) found

module _ {G : Type 0} where
  abbrev pub emit : (Code → Code) → Compiler G → Compiler G
  emit f c = record c { code = f c.code }

  abbrev pub complain : Message → Compiler G → Compiler G
  complain e c = record c { errors = c.errors ++ (e ∷ []) }

  abbrev pub pushed : Bool → Compiler G → Result → CompiledNext G
  pushed eof c none = none
  pushed eof c (some (v, ts)) = some (eof, none, emit (build_push v) (record c { rest = ts }))

  -- `akl_compile_next`. `list` is `akl_compile_list`, `n` the fuel of the parser.
  unfoldable pub compile_next_on :
      ℕ → (Compiler G → Compiled G) → List Lexeme → Compiler G → CompiledNext G
  compile_next_on n list [] c = some (true, none, c)
  compile_next_on n list (lbrace ∷ ts) c =
      Option.map (λ r. (false, r.0, r.1)) (list (record c { rest = ts }))
  compile_next_on n list (quote ∷ ts) c =
      pushed (is_eof ts) c (parse_token (λ us. parse_list n us) true ts)
  compile_next_on n list (t ∷ ts) c =
      pushed false c (parse_token (λ us. parse_list n us) false (t ∷ ts))

  abbrev pub compile_next : ℕ → (Compiler G → Compiled G) → Compiler G → CompiledNext G
  compile_next n list c = compile_next_on n list c.rest c

module _ {G : Type 0} (vars : Globals G) where
  abbrev pub status_of : Option Function → ℕ → PrefetchStatus × Option ℕ
  status_of (some (special k)) f = (pf_fn_sform, some f)
  status_of o f = (pf_fn_normal, some f)

  -- `prefetch_function`
  unfoldable pub prefetch_function : Compiler G → ℕ → PrefetchStatus × Option ℕ
  prefetch_function c s = elim (vars.get_global_var c.globals s) [
    | none ↦ (pf_fn_not_found, none)
    | some v ↦ elim (var_to_function (some v)) [
      | none ↦ (pf_not_fn, none)
      | some f ↦ status_of (get_elem? c.functions f) f
    ]
  ]

  -- `CODE` of the enclosing function comes back, since a special form works on a copy of the context.
  abbrev restore : Compiler G → Compiler G → Compiler G
  restore outer c = record c { code = outer.code; args = outer.args }

  -- The loop of `akl_parse_params`. At the end of the input it does not end.
  abbrev pub params : List Lexeme → Option (List ℕ × List Lexeme)
  params [] = none
  params (rbrace ∷ ts) = some ([], ts)
  params (atom s ∷ ts) = Option.map (λ r. (s ∷ r.0, r.1)) (params ts)
  params (t ∷ ts) = params ts

  abbrev with_params : Compiler G → Option (List ℕ × List Lexeme) → Option (Compiler G)
  with_params c none = none
  with_params c (some (args, ts)) = some (record c { args = args; rest = ts })

  -- `akl_parse_params`, on a function object that is all zeros
  abbrev pub parse_params : List Lexeme → Compiler G → Option (Compiler G)
  parse_params (nil ∷ ts) c = some (record c { rest = ts })
  parse_params (lbrace ∷ ts) c = with_params c (params ts)
  parse_params [] c = some (complain no_arguments c)
  parse_params (t ∷ ts) c = some (complain no_arguments (record c { rest = ts }))

  -- The string and the token behind it are taken; any other token is put back.
  abbrev pub skip_docstring : List Lexeme → List Lexeme
  skip_docstring (string s ∷ t ∷ ts) = ts
  skip_docstring (string s ∷ []) = []
  skip_docstring ts = ts

  abbrev pub new_function : Compiler G → ℕ × Compiler G
  new_function c = (length c.functions, record c { functions = c.functions ++ (user empty ∷ []) })

  abbrev pub ret_null : CompiledNext G → Option (Compiler G)
  ret_null r = Option.map (λ r. r.2) r

  -- The special forms, where `next` is `akl_compile_next`.
  module _ (next : Compiler G → CompiledNext G) where
    unfoldable pub sfun_when : Compiler G → Compiled G
    sfun_when c = do
      (l, c0) ← pure (new_labels 1 c.code)
      c1 ← ret_null (next (record c { code = c0 }))
      c2 ← ret_null (next (emit (build_jump jn l) c1))
      pure (none, emit (build_label l) c2)

    unfoldable pub sfun_sif : Compiler G → Compiled G
    sfun_sif c = do
      (l, c0) ← pure (new_labels 2 c.code)
      c1 ← ret_null (next (record c { code = c0 }))
      c2 ← ret_null (next (emit (build_jump jn (l + 1)) c1))
      c3 ← ret_null (next (emit (build_label (l + 1)) (emit (build_jump jmp l) c2)))
      pure (none, emit (build_label l) c3)

    unfoldable pub sfun_swhile : Compiler G → Compiled G
    sfun_swhile c = do
      (l, c0) ← pure (new_labels 2 c.code)
      c1 ← ret_null (next (record c { code = build_label l c0 }))
      c2 ← ret_null (next (emit (build_jump jn (l + 1)) c1))
      pure (none, emit (build_label (l + 1)) (emit (build_jump jmp l) c2))

    abbrev push_function : Option ℕ → Compiler G → Compiler G
    push_function none c = c
    push_function (some f) c = emit (build_push (some (new_function_value f))) c

    abbrev set_on : List Lexeme → Compiler G → Compiled G
    set_on (atom s ∷ ts) c = do
      (eof, fn, c1) ← next (record c { rest = ts })
      pure (none, emit (build_set s) (push_function fn c1))
    set_on [] c = some (none, complain no_atom c)
    set_on (t ∷ ts) c = some (none, complain no_atom (record c { rest = ts }))

    unfoldable pub sfun_set : Compiler G → Compiled G
    sfun_set c = set_on c.rest c

    -- The arguments and the body of the function object `f`, which has a new body and labels.
    abbrev body_of : ℕ → (Compiler G → Compiler G) → Compiler G → Option (Compiler G)
    body_of f declare c = do
      c1 ← parse_params c.rest (record c { code = empty; args = [] })
      c2 ← ret_null (next (declare (record c1 { rest = skip_docstring c1.rest })))
      pure (restore c (record c2 { functions = set c2.functions f (user c2.code) }))

    abbrev defun_on : List Lexeme → ℕ → Compiler G → Compiled G
    defun_on (atom s ∷ ts) f c = do
      c1 ←
          body_of f
            (λ d. record d { globals = vars.set_global_var d.globals s (new_function_value f) })
            (record c { rest = ts })
      pure (some f, emit (build_push (some (new_sym_value s))) c1)
    defun_on [] f c = some (none, complain no_defun c)
    defun_on (t ∷ ts) f c = some (none, complain no_defun (record c { rest = ts }))

    unfoldable pub sfun_defun : Compiler G → Compiled G
    sfun_defun c = let (f, d) = new_function c in defun_on d.rest f d

    unfoldable pub sfun_lambda : Compiler G → Compiled G
    sfun_lambda c = do (f, d) ← pure (new_function c); c1 ← body_of f (λ d. d) d; pure (some f, c1)

    -- `akl_call_sform`
    unfoldable pub call_sform : Form → Compiler G → Compiled G
    unfolding sfun_when sfun_sif sfun_swhile sfun_set sfun_defun sfun_lambda
    call_sform sif c = sfun_sif c
    call_sform lambda c = sfun_lambda c
    call_sform when c = sfun_when c
    call_sform swhile c = sfun_swhile c
    call_sform defun c = sfun_defun c
    call_sform set_form c = sfun_set c
