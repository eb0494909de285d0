-- ===== src/Builtins/Indexed.antt =====
-- `map-index` of src/lib.c leaves the indices on the stack.
use mathlib.Core.Option
use mathlib.Core.List.{append_assoc, append-nil}
use ak_lisp.Base.{
  length, length-append, arith, ◌≤◌, ℕ, suc, ◌+◌, some, List, [], ◌∷◌, ◌++◌, map, ◌≡◌, refl, ap,
  sym, ◌∙◌,
}
use ak_lisp.Values.{Value, t_list, t_function, new_number_value, new_function_value}
use ak_lisp.Machine.{Machine, stack_push}
use ak_lisp.Machine.OnFrame.{on_frame}
use ak_lisp.Machine.Exec.{Env, cfun, run}
use ak_lisp.Builtins.{Arith, int_zero}
use ak_lisp.Builtins.Fits.{fits_nil, fits_cons, get_args_strict-Fits}
use ak_lisp.Builtins.Made.{elements-values_of}
use ak_lisp.Builtins.Sequences.{quoted_list}
use ak_lisp.Builtins.Apply.{and_then, joined, listed, map_index_from, map_index_of, map_index}
use ak_lisp.Builtins.Applied.{applied-values, frame_end-on_frame}

module _ (a : Arith) {A : Type 0} where
  -- The index of each element, from `i` on.
  abbrev pub indices : ℕ → List A → List Value
  indices i [] = []
  indices i (x ∷ xs) = new_number_value (a.of_int i) ∷ indices (i + 1) xs

module _ (a : Arith) {G A : Type 0} (env : Env G) (n fn c : ℕ) (g f : A → Value) where
  map_index_from-values :
      (i : ℕ) (xs : List A) (m : Machine G)
      → env.function fn ≡ cfun c
      → ((s : List Value) (x : A)
          → env.call_c (run env n) c 1 (on_frame s (g x ∷ []) m)
            ≡ some (some (f x), on_frame s [] m))
      → m.frame_end ≤ length m.stack
      → map_index_from a (run env (suc n)) fn i (map g xs) m
        ≡ some (map f xs, record m { stack = m.stack ++ indices a i xs })
  map_index_from-values i [] m e h l =
      ap (λ t. some ([], record m { stack = t })) (sym (append-nil m.stack))
  map_index_from-values i (x ∷ xs) m e h l =
      let r = stack_push (new_number_value (a.of_int i)) m in
      let size = length-append m.stack (new_number_value (a.of_int i) ∷ []) in
      let l2 : r.frame_end ≤ length r.stack = omega arith in
      ap (λ o. and_then o (λ s. map_index_from a (run env (suc n)) fn (i + 1) (map g xs) s))
        (applied-values env n fn c [] (g x) (f x) r e (h r.stack x) l2)
      ∙ ap (joined (f x)) (map_index_from-values (i + 1) xs r e h l2)
      ∙ ap (λ t. some (f x ∷ map f xs, record m { stack = t }))
          (append_assoc m.stack (new_number_value (a.of_int i) ∷ []) (indices a (i + 1) xs))

  -- `map-index` of a function in C that gives `f x` for the value of each `x`, takes that value alone
  -- off its frame and changes nothing else: the list of the values of `f` is returned, and the indices
  -- of all elements are left on the stack.
  pub map_index-indices :
      (below : List Value) (m : Machine G) (xs : List A)
      → env.function fn ≡ cfun c
      → ((s : List Value) (x : A)
          → env.call_c (run env n) c 1 (on_frame s (g x ∷ []) m)
            ≡ some (some (f x), on_frame s [] m))
      → map_index a
          (run env (suc n))
          (on_frame below (quoted_list (map g xs) ∷ new_function_value fn ∷ []) m)
        ≡ some (
          some (quoted_list (map f xs)),
          record (on_frame below [] m) { stack = below ++ indices a int_zero xs },
        )
  unfolding map_index
  map_index-indices below m xs e h =
      let args =
        (get_args_strict-Fits below m (some t_list) (some t_function ∷ [])
          (quoted_list (map g xs) ∷ new_function_value fn ∷ [])
          (fits_cons refl (fits_cons refl fits_nil))).0 in
      let k = run env (suc n) in
      ap (λ r. map_index_of a k r) args
      ∙ ap (λ vs. Option.map listed (map_index_from a k fn int_zero vs (on_frame below [] m)))
          (elements-values_of (map g xs))
      ∙ ap (λ r. Option.map listed r)
          (map_index_from-values int_zero xs (on_frame below [] m) e h (frame_end-on_frame below m))
      ∙ ap
          (λ t. some (
            some (quoted_list (map f xs)),
            record (on_frame below [] m) { stack = t ++ indices a int_zero xs },
          ))
          (append-nil below)
