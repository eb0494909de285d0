-- ===== src/Symbols/Functions.antt =====
-- `akl_declare_functions` and what it calls in src/util.c.
use mathlib.Core.Option
use ak_lisp.Base.{
  ℕ, suc, true, Option, none, some, List, [], ◌∷◌, ◌++◌, ◌≡◌, refl, ap, sym, ◌∙◌, arith, length,
  length-append, set, set-append_self, if◌then◌else◌,
}
use ak_lisp.Values.{Value, new_function_value}
use ak_lisp.Machine.Exec.{Function}
use ak_lisp.Symbols.{Name, Tree, State, set_global_variable, get_global_value}
use ak_lisp.Symbols.Interned.{IsTree}
use ak_lisp.Symbols.Variables.{InOrder}
use ak_lisp.Symbols.Declared.{get_global_value-set_global_variable}
use mathlib.Core.List.{append_assoc, append-nil}

-- `struct akl_fun_decl` with what it makes of the function object, which is of a function in C or of a
-- special form.
pub record FunDecl : Type 0 where
  pub fd_fun : Function
  pub fd_name : Name
  pub fd_desc : Name

-- The function objects, `none` before the type is set, and the state.
abbrev pub Declared : Type 0 → Type 0
Declared T = List (Option Function) × State T

module _ {T : Type 0} (tree : Tree T) where
  -- `akl_add_global_cfun` and `akl_add_global_sfun`: `akl_add_global_function`, then the function is set.
  unfoldable pub add_global_fun : Function → Name → Name → Declared T → Option (Declared T)
  add_global_fun fn name desc (fs, s) =
      Option.map (λ r. (set (fs ++ (none ∷ [])) (length fs) (some fn), r))
        (set_global_variable tree name true (some desc) true (new_function_value (length fs)) s)

  abbrev pub and_declare :
      Option (Declared T) → (Declared T → Option (Declared T)) → Option (Declared T)
  and_declare none go = none
  and_declare (some d) go = go d

  abbrev pub declare_functions : List FunDecl → Declared T → Option (Declared T)
  declare_functions [] d = some d
  declare_functions (f ∷ fs) d =
      and_declare (add_global_fun f.fd_fun f.fd_name f.fd_desc d) (λ r. declare_functions fs r)

  -- The value of the name `n`, `old` at first, behind declarations whose function objects start at `i`.
  abbrev pub declared_value : Name → ℕ → Option Value → List FunDecl → Option Value
  declared_value n i old [] = old
  declared_value n i old (f ∷ fs) =
      declared_value n (suc i)
        (if tree.is_same n f.fd_name then some (new_function_value i) else old) fs

abbrev pub functions_of : List FunDecl → List (Option Function)
functions_of [] = []
functions_of (f ∷ fs) = some f.fd_fun ∷ functions_of fs

module _ {T : Type 0} (tree : Tree T) (laws : IsTree tree) where
  add_global_fun_lem :
      (f : FunDecl) (fs : List (Option Function)) (s : State T)
      → InOrder tree laws s
      → (r : State T) × (add_global_fun tree f.fd_fun f.fd_name f.fd_desc (fs, s)
          ≡ some (fs ++ (some f.fd_fun ∷ []), r))
        × InOrder tree laws r
        × ((n : Name)
            → get_global_value tree n r ≡ (
                if tree.is_same n f.fd_name
                then some (new_function_value (length fs))
                else get_global_value tree n s))
  unfolding add_global_fun
  add_global_fun_lem f fs s h =
      let (r, done, order, values) =
        get_global_value-set_global_variable tree laws f.fd_name true (some f.fd_desc) true
          (new_function_value (length fs)) s h in
      (
        r,
        ap (Option.map (λ t. (set (fs ++ (none ∷ [])) (length fs) (some f.fd_fun), t))) done
            ∙ ap (λ xs. some (xs, r)) (set-append_self fs none (some f.fd_fun)),
        order,
        values,
      )

  -- The declaration of functions, with symbols and variables in order, succeeds and keeps them so. A
  -- name that was declared is then the function of its last declaration, in any case, and the function
  -- objects are those of the declarations behind the ones before; the other names have the values they
  -- had, or none.
  pub declare_functions-declared_value :
      (ds : List FunDecl) (fs : List (Option Function)) (s : State T)
      → InOrder tree laws s
      → (r : State T) × (declare_functions tree ds (fs, s) ≡ some (fs ++ functions_of ds, r))
        × InOrder tree laws r
        × ((n : Name)
            → get_global_value tree n r
              ≡ declared_value tree n (length fs) (get_global_value tree n s) ds)
  declare_functions-declared_value [] fs s h =
      (s, ap (λ xs. some (xs, s)) (sym (append-nil fs)), h, λ n. refl)
  declare_functions-declared_value (f ∷ ds) fs s h =
      let (t, made, order, values) = add_global_fun_lem f fs s h in
      let (r, done, order2, rest) =
        declare_functions-declared_value ds (fs ++ (some f.fd_fun ∷ [])) t order in
      let size : length (fs ++ (some f.fd_fun ∷ [])) ≡ suc (length fs) =
        let e = length-append fs (some f.fd_fun ∷ []) in omega arith in
      (
        r,
        ap (λ o. and_declare tree o (λ d. declare_functions tree ds d)) made
            ∙ done
            ∙ ap (λ xs. some (xs, r)) (append_assoc fs (some f.fd_fun ∷ []) (functions_of ds)),
        order2,
        λ n.
            rest n
            ∙ ap (λ i. declared_value tree n i (get_global_value tree n t) ds) size
            ∙ ap (λ o. declared_value tree n (suc (length fs)) o ds) (values n),
      )
