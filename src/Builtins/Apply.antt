-- ===== src/Builtins/Apply.antt =====
-- The functions of src/lib.c that call a function: `map`, `map-index`, `foldl`, `times`.
use mathlib.Core.Option
use ak_lisp.Base.{if◌then◌else◌, ℕ, zero, suc, ◌+◌, ◌-◌, Option, none, some, List, [], ◌∷◌}
use ak_lisp.Values.{
  Value, value, vt_list, vt_function, t_list, t_number, t_function, new_nil_value, new_number_value,
}
use ak_lisp.Machine.{Machine, pops_frame, stack_push, stack_pop}
use ak_lisp.Machine.Exec.{Runner, bound}
use ak_lisp.Builtins.{Arith, Returned, int_zero}
use ak_lisp.Builtins.Args.{Args, number_value, get_args_strict}
use ak_lisp.Builtins.Sequences.{elements, quoted_list}

module _ {G : Type 0} where
  abbrev pub taken_top : Option Value × Machine G → Option (Value × Machine G)
  taken_top (none, m) = none
  taken_top (some v, m) = some (v, m)

  -- The value on top, when it is not one of the frame.
  abbrev pub popped_value : Machine G → Option (Value × Machine G)
  popped_value r = if pops_frame r then none else taken_top (stack_pop r)

  -- The function is called on arguments that were pushed, and its value is taken off the stack. A list
  -- or a fold that goes on with NULL is not modelled.
  unfoldable pub applied : Runner G → (fn argc : ℕ) → Machine G → Option (Value × Machine G)
  applied run fn argc m = Option.bind (run (bound none fn argc) m) (λ r. popped_value r)

  abbrev pub joined : Value → Option (List Value × Machine G) → Option (List Value × Machine G)
  joined v none = none
  joined v (some (vs, m)) = some (v ∷ vs, m)

  -- The call, then the calls on what is left.
  abbrev pub and_then :
      Option (Value × Machine G)
      → (Machine G → Option (List Value × Machine G))
      → Option (List Value × Machine G)
  and_then none go = none
  and_then (some (v, m)) go = joined v (go m)

  abbrev pub map_from :
      Runner G → (fn : ℕ) → List Value → Machine G → Option (List Value × Machine G)
  map_from run fn [] m = some ([], m)
  map_from run fn (v ∷ vs) m =
      and_then (applied run fn 1 (stack_push v m)) (λ r. map_from run fn vs r)

  abbrev pub listed : List Value × Machine G → Returned G
  listed (vs, m) = (some (quoted_list vs), m)

  abbrev pub map_of : Runner G → Args G → Option (Returned G)
  map_of run (some (value q (vt_list p xs) ∷ value q' (vt_function fn) ∷ vs), m) =
      Option.map listed (map_from run fn (elements xs) m)
  map_of run (none, m) = some (some new_nil_value, m)
  map_of run (some vs, m) = none

  unfoldable pub map_fun : Runner G → Machine G → Option (Returned G)
  map_fun run m = map_of run (get_args_strict (some t_list ∷ some t_function ∷ []) m)

  abbrev pub fold_step :
      Option (Value × Machine G) → (Value → Machine G → Option (Returned G)) → Option (Returned G)
  fold_step none go = none
  fold_step (some (v, m)) go = go v m

  abbrev pub foldl_from : Runner G → (fn : ℕ) → Value → List Value → Machine G → Option (Returned G)
  foldl_from run fn v [] m = some (some v, m)
  foldl_from run fn v (x ∷ xs) m =
      fold_step (applied run fn 2 (stack_push x (stack_push v m))) (λ w r. foldl_from run fn w xs r)

  abbrev pub foldl_of : Runner G → Args G → Option (Returned G)
  foldl_of run (some (v ∷ value q (vt_list p xs) ∷ value q' (vt_function fn) ∷ vs), m) =
      foldl_from run fn v (elements xs) m
  foldl_of run (none, m) = some (some new_nil_value, m)
  foldl_of run (some vs, m) = none

  unfoldable pub foldl_fun : Runner G → Machine G → Option (Returned G)
  foldl_fun run m = foldl_of run (get_args_strict (none ∷ some t_list ∷ some t_function ∷ []) m)

  -- The calls without arguments that are left.
  abbrev pub times_from : Runner G → (fn n : ℕ) → Machine G → Option (List Value × Machine G)
  times_from run fn zero m = some ([], m)
  times_from run fn (suc n) m = and_then (applied run fn 0 m) (λ r. times_from run fn n r)

module _ (a : Arith) {G : Type 0} where
  -- The index is pushed below the element, the call is with one argument.
  abbrev pub map_index_from :
      Runner G → (fn ind : ℕ) → List Value → Machine G → Option (List Value × Machine G)
  map_index_from run fn ind [] m = some ([], m)
  map_index_from run fn ind (v ∷ vs) m =
      and_then (applied run fn 1 (stack_push v (stack_push (new_number_value (a.of_int ind)) m)))
        (λ r. map_index_from run fn (ind + 1) vs r)

  abbrev pub map_index_of : Runner G → Args G → Option (Returned G)
  map_index_of run (some (value q (vt_list p xs) ∷ value q' (vt_function fn) ∷ vs), m) =
      Option.map listed (map_index_from run fn int_zero (elements xs) m)
  map_index_of run (none, m) = some (some new_nil_value, m)
  map_index_of run (some vs, m) = none

  unfoldable pub map_index : Runner G → Machine G → Option (Returned G)
  map_index run m = map_index_of run (get_args_strict (some t_list ∷ some t_function ∷ []) m)

  -- The calls on an index that are left.
  abbrev pub times_index_from :
      Runner G → (fn n i : ℕ) → Machine G → Option (List Value × Machine G)
  times_index_from run fn zero i m = some ([], m)
  times_index_from run fn (suc n) i m =
      and_then (applied run fn 1 (stack_push (new_number_value (a.of_int i)) m))
        (λ r. times_index_from run fn n (i + 1) r)

  abbrev times_of :
      ((fn n : ℕ) → Machine G → Option (List Value × Machine G)) → Args G → Option (Returned G)
  times_of go (some (v ∷ value q (vt_function fn) ∷ vs), m) =
      Option.map listed (go fn (a.to_int (number_value v) - int_zero) m)
  times_of go (none, m) = some (some new_nil_value, m)
  times_of go (some vs, m) = none

  unfoldable pub times : Runner G → Machine G → Option (Returned G)
  times run m =
      times_of (λ fn n r. times_from run fn n r)
        (get_args_strict (some t_number ∷ some t_function ∷ []) m)

  unfoldable pub times_index : Runner G → Machine G → Option (Returned G)
  times_index run m =
      times_of (λ fn n r. times_index_from run fn n int_zero r)
        (get_args_strict (some t_number ∷ some t_function ∷ []) m)
