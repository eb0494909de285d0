-- ===== src/Compile/Lists.antt =====
-- `akl_compile_list` and `akl_compile` of src/compile.c.
use mathlib.Core.Option
use ak_lisp.Base.{
  ℕ, zero, suc, ◌+◌, Bool, true, false, Option, none, some, List, [], ◌∷◌, get_elem?, if◌then◌else◌,
}
use ak_lisp.Values.{value, vt_symbol, new_nil_value, new_function_value}
use ak_lisp.Machine.{no_function}
use ak_lisp.Machine.Code.{build_push, build_load, build_call, without_nop}
use ak_lisp.Machine.Exec.{Function, Form, Globals, special}
use ak_lisp.Compile.Parse.{Lexeme, atom, lbrace, rbrace, quote, Result, parse_token, parse_list}
use ak_lisp.Compile.Forms.{
  Compiler, Compiled, CompiledNext, Locals, PrefetchStatus, pf_fn_not_found, pf_fn_normal,
  pf_fn_sform, pf_not_fn, at_start, argument_finder, emit, complain, compile_next,
  prefetch_function, call_sform,
}

abbrev pub form_of : Option Function → Option Form
form_of (some (special k)) = some k
form_of o = none

module _ {G : Type 0} (vars : Globals G) where
  -- A step of the loop of `akl_compile_list`: `list` is the function itself, `go` the next iteration.
  module _ (n : ℕ) (list : Compiler G → Compiled G) (go : Locals → Compiler G → Compiled G) where
    abbrev go_on : Locals → Compiler G → Compiled G
    go_on l c = go (record l { felem = false }) c

    abbrev operand : Bool → ℕ → Compiler G → Compiler G
    operand true s c = emit (build_push (some (value true (vt_symbol s)))) c
    operand false s c = emit (build_load (argument_finder c.args s) s) c

    abbrev pub sform_called : Locals → Option (Option ℕ × Compiler G) → Compiled G
    sform_called l none = none
    sform_called l (some (f, c)) = go_on (record l { fun = f }) c

    abbrev pub sform_at : Option Form → Locals → Compiler G → Compiled G
    sform_at none l c = none
    sform_at (some k) l c = sform_called l (call_sform vars (λ d. compile_next n list d) k c)

    -- The first element is a name.
    abbrev pub function_name : ℕ → PrefetchStatus × Option ℕ → Locals → Compiler G → Compiled G
    function_name s (pf_fn_not_found, f) l c =
        go_on (record l { pf_st = pf_fn_not_found; fun = f; fsym = some s }) c
    function_name s (pf_fn_normal, f) l c =
        go_on (record l { pf_st = pf_fn_normal; fun = f; fsym = some s }) c
    function_name s (pf_not_fn, f) l c = go_on (record l { pf_st = pf_not_fn; fun = f }) c
    function_name s (pf_fn_sform, none) l c = none
    function_name s (pf_fn_sform, some f) l c =
        sform_at (form_of (get_elem? c.functions f)) (record l { pf_st = pf_fn_sform }) c

    -- A list that is not quoted.
    abbrev pub nested : Locals → Option (Option ℕ × Compiler G) → Compiled G
    nested l none = none
    nested l (some (none, c)) = go_on (record l { argc = l.argc + 1 }) c
    nested l (some (some f, c)) =
        if l.felem
        then go_on (record l { argc = l.argc + 1; fun = some f }) c
        else go_on (record l { argc = l.argc + 1 })
            (emit (build_push (some (new_function_value f))) c)

    abbrev pub constant : Locals → Compiler G → Result → Compiled G
    constant l c none = none
    constant l c (some (none, ts)) = none
    constant l c (some (some v, ts)) =
        go_on (record l { argc = l.argc + 1 }) (emit (build_push (some v)) (record c { rest = ts }))

    abbrev is_sform : PrefetchStatus → Bool
    is_sform pf_fn_sform = true
    is_sform pf_fn_normal = false
    is_sform pf_fn_not_found = false
    is_sform pf_not_fn = false

    -- The token that was read is lost.
    abbrev pub interrupted : List Lexeme → Compiler G → Compiled G
    interrupted [] c = some (none, c)
    interrupted (t ∷ ts) c = some (none, record c { rest = ts; ai_interrupted = false })

    -- The closing brace.
    abbrev pub close : Option ℕ → Locals → Compiler G → Compiled G
    close (some s) l c = some (none, emit (build_call s l.fun l.argc) c)
    close none l c = elim l.fun [
      | some f ↦ some (some f, c)
      | none ↦
          if is_sform l.pf_st
          then some (none, c)
          else some (none, complain no_function (emit (build_push (some new_nil_value)) c))
    ]

    -- The `switch` on the token, which is the first lexeme; the state has those behind it.
    unfoldable pub token : Bool → List Lexeme → Locals → Compiler G → Compiled G
    token q [] l c = none
    token q (atom s ∷ ts) l c =
        if l.felem
        then function_name s (prefetch_function vars c s) l c
        else go_on (record l { argc = l.argc + 1 }) (operand q s c)
    token q (lbrace ∷ ts) l c =
        if q
        then constant l c (parse_token (λ us. parse_list n us) true (lbrace ∷ ts))
        else nested l (list c)
    token q (rbrace ∷ ts) l c = close l.fsym l c
    token q (t ∷ ts) l c = constant l c (parse_token (λ us. parse_list n us) true (t ∷ ts))

    abbrev pub behind : List Lexeme → List Lexeme
    behind [] = []
    behind (t ∷ ts) = ts

    abbrev pub unquoted_token : List Lexeme → Locals → Compiler G → Compiled G
    unquoted_token [] l c = some (none, c)
    unquoted_token (quote ∷ ts) l c = token true ts l (record c { rest = behind ts })
    unquoted_token (t ∷ ts) l c = token false (t ∷ ts) l (record c { rest = ts })

    abbrev pub iteration : Locals → Compiler G → Compiled G
    iteration l c = if c.ai_interrupted then interrupted c.rest c else unquoted_token c.rest l c

  -- The loop of `akl_compile_list`, on fuel.
  unfoldable pub compile_list_from : ℕ → Locals → Compiler G → Compiled G
  unfolding token
  compile_list_from zero l c = none
  compile_list_from (suc n) l c =
      iteration n (λ d. compile_list_from n at_start d) (λ m d. compile_list_from n m d) l c

  abbrev pub compile_list : ℕ → Compiler G → Compiled G
  compile_list n c = compile_list_from n at_start c

  -- `akl_compile_next` at the top, and the loop of `akl_compile`
  abbrev pub next : ℕ → Compiler G → CompiledNext G
  next n c = compile_next n (λ d. compile_list n d) c

  abbrev pub looped : CompiledNext G → (Compiler G → Option (Compiler G)) → Option (Compiler G)
  looped none go = none
  looped (some (eof, fn, d)) go = let rest = go d in if eof then some d else rest

  unfoldable pub compile_all : ℕ → ℕ → Compiler G → Option (Compiler G)
  unfolding compile_list_from
  compile_all zero n c = none
  compile_all (suc k) n c = looped (next n c) (λ d. compile_all k n d)

  -- `akl_compile`: the main function, and what became of the state.
  unfoldable pub compile : ℕ → Compiler G → Option (Compiler G)
  unfolding compile_all
  compile n c = Option.map (λ d. emit without_nop d) (compile_all n n c)
