-- ===== src/Symbols/Globals.antt =====
-- The global variables as the executor sees them.
use mathlib.Core.Option
use ak_lisp.Base.{ℕ, ◌+◌, true, Option, none, some, ◌≡◌, ap, ◌∙◌, if◌then◌else◌}
use ak_lisp.Values.{Value, new_nil_value}
use ak_lisp.Machine.{Machine, raise, undefined_variable, stack_push, stack_top}
use ak_lisp.Machine.Code.{Code, set_var, get}
use ak_lisp.Machine.Exec.{Globals, Env, Runner, Function, goto, assigned, push_or, step}
use ak_lisp.Symbols.{
  Name, Tree, State, name_of, value_at, get_global_var, set_global_var, get_global_value,
  get_global_variable,
}
use ak_lisp.Symbols.Interned.{IsTree}
use ak_lisp.Symbols.Variables.{InOrder, get_global_value-set_global_var}

module _ {T : Type 0} (tree : Tree T) where
  abbrev value_found : State T → Option (Option ℕ) → Option Value
  value_found s none = none
  value_found s (some o) = value_at s.variables o

  abbrev or_else : State T → Option (State T) → State T
  or_else s none = s
  or_else s (some r) = r

  -- A symbol without a name, on which the program ends with a failed assertion, has no value here.
  abbrev pub state_globals : Globals (State T)
  state_globals = record {
    get_global_var = λ s symb. value_found s (get_global_var tree symb s);
    set_global_var = λ s symb v. or_else s (set_global_var tree symb none true v s);
  }

  value_found-name_of :
      (symb : ℕ) (name : Name) (s : State T)
      → name_of symb s ≡ some name
      → value_found s (get_global_var tree symb s) ≡ get_global_value tree name s
  unfolding get_global_var get_global_value get_global_variable
  value_found-name_of symb name s h =
      ap (λ o. value_found s (Option.map (λ n. tree.find n s.ai_global_vars) o)) h

module _ {T : Type 0} (tree : Tree T) (laws : IsTree tree) where
  -- SET of a symbol that has a name, with a value on top of the stack: the symbols and variables stay in
  -- order, the stack stays as it is, and the value of each symbol that has a name is the new one where the
  -- names are the same up to case, and what it was otherwise.
  pub step-set_var :
      (function : ℕ → Function)
      (call_c : Runner (State T)
        → ℕ
        → ℕ
        → Machine (State T)
        → Option (Option Value × Machine (State T)))
      (run : Runner (State T)) (code : Code) (ip symb : ℕ) (name : Name) (v : Value)
      (m : Machine (State T))
      → InOrder tree laws m.globals
      → name_of symb m.globals ≡ some name
      → stack_top m ≡ some v
      → (g : State T) × (step
            (record { vars = state_globals tree; function = function; call_c = call_c })
            run
            code
            (set_var symb)
            ip
            m
          ≡ some (goto (record m { globals = g }) (ip + 1)))
        × InOrder tree laws g
        × ((n : Name)
            → get_global_value tree n g
              ≡ (if tree.is_same n name then some v else get_global_value tree n m.globals))
  unfolding step
  step-set_var function call_c run code ip symb name v m order named top =
      let env : Env (State T) = record {
        vars = state_globals tree;
        function = function;
        call_c = call_c;
      } in
      let (g, done, order2, kept, values) =
        get_global_value-set_global_var tree laws symb name none true v m.globals order named in
      (
        g,
        ap (λ o. some (goto (assigned env symb o m) (ip + 1))) top
            ∙ ap (λ o. some (goto (record m { globals = or_else tree m.globals o }) (ip + 1))) done,
        order2,
        values,
      )

  -- GET of a symbol that has a name pushes the value of the name.
  pub step-get :
      (function : ℕ → Function)
      (call_c : Runner (State T)
        → ℕ
        → ℕ
        → Machine (State T)
        → Option (Option Value × Machine (State T)))
      (run : Runner (State T)) (code : Code) (ip symb : ℕ) (name : Name) (v : Value)
      (m : Machine (State T))
      → name_of symb m.globals ≡ some name
      → get_global_value tree name m.globals ≡ some v
      → step
          (record { vars = state_globals tree; function = function; call_c = call_c })
          run
          code
          (get symb)
          ip
          m
        ≡ some (goto (stack_push v m) (ip + 1))
  unfolding step
  step-get function call_c run code ip symb name v m named is =
      let env : Env (State T) = record {
        vars = state_globals tree;
        function = function;
        call_c = call_c;
      } in
      ap
        (λ o. some (
          goto (push_or env o m (stack_push new_nil_value (raise (undefined_variable symb) m)))
            (ip + 1)))
        (value_found-name_of tree symb name m.globals named ∙ is)
