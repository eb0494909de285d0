-- ===== src/Builtins/Composed.antt =====
-- Functions of src/lib.c called through the table and the executor.
use ak_lisp.Base.{ℕ, suc, Option, some, List, [], ◌∷◌, ◌++◌, map, ◌≡◌, refl, ap, length}
use ak_lisp.Values.{Value, t_number, new_function_value, new_number_value}
use ak_lisp.Machine.{Machine}
use ak_lisp.Machine.OnFrame.{on_frame}
use ak_lisp.Machine.Exec.{Runner, Globals, Function, cfun, run, call_function_bound}
use ak_lisp.Builtins.Args.{number_value, with_one}
use ak_lisp.Builtins.Fits.{fits_nil, fits_cons, get_args_strict-Fits}
use ak_lisp.Builtins.Fold.{fold_left, plus-mul}
use ak_lisp.Builtins.Made.{list_fun-on_frame}
use ak_lisp.Builtins.Numbers.{inc}
use ak_lisp.Builtins.Sequences.{quoted_list}
use ak_lisp.Builtins.Apply.{map_fun, foldl_fun}
use ak_lisp.Builtins.Applied.{map_fun-values, foldl_fun-values, call_function_bound-values}
use ak_lisp.Builtins.Table.{Linked, call_cfun, akl_basic_funs, with_basic_funs}

module _ {G : Type 0} (l : Linked G) (vars : Globals G) (function : ℕ → Function) where
  pub call_cfun-inc :
      (k : Runner G) (s : List Value) (x : ℕ) (m : Machine G)
      → call_cfun l k 0 1 (on_frame s (new_number_value x ∷ []) m)
        ≡ some (some (new_number_value (l.arith.add x l.arith.one_double)), on_frame s [] m)
  unfolding call_cfun akl_basic_funs inc
  call_cfun-inc k s x m =
      ap
        (λ r. some (
          with_one (λ v. some (new_number_value (l.arith.add (number_value v) l.arith.one_double)))
            r))
        ((get_args_strict-Fits s m (some t_number) [] (new_number_value x ∷ [])
          (fits_cons refl fits_nil)).0)

  call_cfun-plus :
      (k : Runner G) (s : List Value) (x y : ℕ) (m : Machine G)
      → call_cfun l k 2 2 (on_frame s (new_number_value x ∷ new_number_value y ∷ []) m)
        ≡ some (
          some (new_number_value (l.arith.add (l.arith.add l.arith.zero_double y) x)),
          on_frame s [] m,
        )
  unfolding call_cfun akl_basic_funs
  call_cfun-plus k s x y m = ap some ((plus-mul l.arith m s (y ∷ x ∷ [])).0)

  -- `(map numbers ++)` is the list of the numbers, each plus one, and nothing else changes.
  pub map_fun-inc :
      (n fn : ℕ) (below : List Value) (m : Machine G) (xs : List ℕ)
      → function fn ≡ cfun 0
      → map_fun
          (run (with_basic_funs l vars function) (suc n))
          (on_frame below (quoted_list (map new_number_value xs) ∷ new_function_value fn ∷ []) m)
        ≡ some (
          some (quoted_list (map (λ x. new_number_value (l.arith.add x l.arith.one_double)) xs)),
          on_frame below [] m,
        )
  map_fun-inc n fn below m xs e =
      let env = with_basic_funs l vars function in
      map_fun-values env n fn 0 new_number_value below m
        (λ x. new_number_value (l.arith.add x l.arith.one_double)) xs e
        (λ s x. call_cfun-inc (run env n) s x m)

  -- `(foldl x numbers +)` is the sum, each number added to 0 and then to the sum so far, and nothing
  -- else changes.
  pub foldl_fun-plus :
      (n fn : ℕ) (below : List Value) (m : Machine G) (x : ℕ) (xs : List ℕ)
      → function fn ≡ cfun 2
      → foldl_fun (run (with_basic_funs l vars function) (suc n)) (
          on_frame below
            (new_number_value x
              ∷ quoted_list (map new_number_value xs)
              ∷ new_function_value fn
              ∷ [])
            m)
        ≡ some (
          some (
              new_number_value
                (fold_left (λ s y. l.arith.add (l.arith.add l.arith.zero_double y) s) x xs)),
          on_frame below [] m,
        )
  foldl_fun-plus n fn below m x xs e =
      let env = with_basic_funs l vars function in
      foldl_fun-values env n fn 2 new_number_value below m
        (λ s y. l.arith.add (l.arith.add l.arith.zero_double y) s) x xs e
        (λ s y z. call_cfun-plus (run env n) s y z m)

  -- A call of `list` replaces its arguments on the stack by the list of them.
  pub call_function_bound-list_fun :
      (k : Runner G) (name : Option ℕ) (fn : ℕ) (s vs : List Value) (v : Value) (m : Machine G)
      → function fn ≡ cfun 27
      → call_function_bound
          (with_basic_funs l vars function)
          k
          name
          fn
          (suc (length vs))
          (record m { stack = s ++ (v ∷ vs) })
        ≡ some (record m { stack = s ++ (quoted_list (v ∷ vs) ∷ []) })
  unfolding call_cfun akl_basic_funs
  call_function_bound-list_fun k name fn s vs v m e =
      call_function_bound-values (with_basic_funs l vars function) k name fn 27 s vs v
        (quoted_list (v ∷ vs)) m e (ap some (list_fun-on_frame s m (v ∷ vs)))
