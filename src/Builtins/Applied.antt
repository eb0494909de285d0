-- ===== src/Builtins/Applied.antt =====
-- Calls of functions in C that take all their arguments: by a CALL, by `map` and by `foldl`.
use mathlib.Core.Option
use mathlib.Core.List.{append_assoc, append-nil}
use ak_lisp.Base.{
  false, if◌then◌else◌, ◌≤◌, ℕ, suc, ◌-◌, Option, none, some, List, [], ◌∷◌, ◌++◌, map, ◌≡◌, refl,
  ap, ◌∙◌, arith, length, get_elem?, take, length-append, get_elem?-append_self, take-append_le,
}
use ak_lisp.Values.{Value, t_list, t_function, new_function_value}
use ak_lisp.Machine.{pops_frame, Machine, stack_push, stack_pop, frame_destroy, pop_frame}
use ak_lisp.Machine.OnFrame.{on_frame, init_frame-on_frame}
use ak_lisp.Machine.Exec.{Env, Runner, cfun, after_cfun, with_frame, call_function_bound, run}
use ak_lisp.Builtins.Fits.{fits_nil, fits_cons, get_args_strict-Fits}
use ak_lisp.Builtins.Fold.{fold_left}
use ak_lisp.Builtins.Made.{elements-values_of}
use ak_lisp.Builtins.Sequences.{quoted_list}
use ak_lisp.Builtins.Apply.{
  popped_value, taken_top, applied, and_then, joined, listed, map_from, map_of, map_fun, fold_step,
  foldl_from, foldl_of, foldl_fun,
}

pub frame_end-on_frame :
    {G : Type 0} (below : List Value) (m : Machine G)
    → (on_frame below [] m).frame_end ≤ length ((on_frame below [] m).stack)
frame_end-on_frame below m = omega (arith, length-append below [])

take-all : (xs : List Value) → take (length xs) xs ≡ xs
take-all [] = refl
take-all (x ∷ xs) = ap (λ r. x ∷ r) (take-all xs)

module _ {G : Type 0} (env : Env G) where
  stack_pop-stack_push : (w : Value) (m : Machine G) → stack_pop (stack_push w m) ≡ (some w, m)
  stack_pop-stack_push w m =
      let size = length-append m.stack (w ∷ []) in
      let e : length (m.stack ++ (w ∷ [])) - 1 ≡ length m.stack = omega arith in
      ap
        (λ k.
          (get_elem? (m.stack ++ (w ∷ [])) k, record m { stack = take k (m.stack ++ (w ∷ [])) }))
        e
      ∙ ap (λ o. (o, record m { stack = take (length m.stack) (m.stack ++ (w ∷ [])) }))
          (get_elem?-append_self m.stack [] w)
      ∙ ap (λ t. (some w, record m { stack = t }))
          (take-append_le (length m.stack) m.stack (w ∷ []) (omega arith) ∙ take-all m.stack)

  pops_frame-stack_push :
      (w : Value) (m : Machine G)
      → m.frame_end ≤ length m.stack
      → pops_frame (stack_push w m) ≡ false
  pops_frame-stack_push w m h = let size = length-append m.stack (w ∷ []) in ground (arith, h)

  popped_value-stack_push :
      (w : Value) (m : Machine G)
      → m.frame_end ≤ length m.stack
      → popped_value (stack_push w m) ≡ some (w, m)
  popped_value-stack_push w m h =
      ap (λ b. if b then none else taken_top (stack_pop (stack_push w m)))
        (pops_frame-stack_push w m h)
      ∙ ap taken_top (stack_pop-stack_push w m)

  -- A call of a function in C that takes all the values of its frame and gives a value: on the stack
  -- the value stands where the arguments were, and the caller's frame is as it was.
  pub call_function_bound-values :
      (k : Runner G) (name : Option ℕ) (fn c : ℕ) (s vs : List Value) (v w : Value) (m : Machine G)
      → env.function fn ≡ cfun c
      → env.call_c k c (suc (length vs)) (on_frame s (v ∷ vs) m) ≡ some (some w, on_frame s [] m)
      → call_function_bound env k name fn (suc (length vs)) (record m { stack = s ++ (v ∷ vs) })
        ≡ some (record m { stack = s ++ (w ∷ []) })
  unfolding call_function_bound frame_destroy pop_frame
  call_function_bound-values k name fn c s vs v w m e h =
      let start = init_frame-on_frame s vs v m in
      rw e (
        ap
          (λ r.
            Option.map (λ t. with_frame env m (frame_destroy t))
              (Option.map (after_cfun env name) (env.call_c k c (suc (length vs)) r)))
          start)
      ∙ ap
          (λ r.
            Option.map (λ t. with_frame env m (frame_destroy t))
              (Option.map (after_cfun env name) r))
          h
      ∙ ap (λ t. some (record m { stack = t ++ (w ∷ []) })) (append-nil s)

  pub applied-values :
      (n fn c : ℕ) (vs : List Value) (v w : Value) (m : Machine G)
      → env.function fn ≡ cfun c
      → env.call_c (run env n) c (suc (length vs)) (on_frame m.stack (v ∷ vs) m)
        ≡ some (some w, on_frame m.stack [] m)
      → m.frame_end ≤ length m.stack
      → applied (run env (suc n)) fn (suc (length vs)) (record m { stack = m.stack ++ (v ∷ vs) })
        ≡ some (w, m)
  unfolding applied run Option.bind
  applied-values n fn c vs v w m e h l =
      ap (λ r. Option.bind r (λ t. popped_value t))
        (call_function_bound-values (run env n) none fn c m.stack vs v w m e h)
      ∙ popped_value-stack_push w m l

module _ {G A : Type 0} (env : Env G) (n fn c : ℕ) (g : A → Value) (m : Machine G) where
  map_from-values :
      (f : A → Value) (xs : List A)
      → env.function fn ≡ cfun c
      → ((s : List Value) (x : A)
          → env.call_c (run env n) c 1 (on_frame s (g x ∷ []) m)
            ≡ some (some (f x), on_frame s [] m))
      → m.frame_end ≤ length m.stack
      → map_from (run env (suc n)) fn (map g xs) m ≡ some (map f xs, m)
  map_from-values f [] e h l = refl
  map_from-values f (x ∷ xs) e h l =
      ap (λ r. and_then r (λ s. map_from (run env (suc n)) fn (map g xs) s))
        (applied-values env n fn c [] (g x) (f x) m e (h m.stack x) l)
      ∙ ap (joined (f x)) (map_from-values f xs e h l)

  foldl_from-values :
      (op : A → A → A) (x : A) (xs : List A)
      → env.function fn ≡ cfun c
      → ((s : List Value) (x y : A)
          → env.call_c (run env n) c 2 (on_frame s (g x ∷ g y ∷ []) m)
            ≡ some (some (g (op x y)), on_frame s [] m))
      → m.frame_end ≤ length m.stack
      → foldl_from (run env (suc n)) fn (g x) (map g xs) m ≡ some (some (g (fold_left op x xs)), m)
  foldl_from-values op x [] e h l = refl
  foldl_from-values op x (y ∷ ys) e h l =
      ap
        (λ t.
          fold_step (applied (run env (suc n)) fn 2 (record m { stack = t }))
            (λ w r. foldl_from (run env (suc n)) fn w (map g ys) r))
        (append_assoc m.stack (g x ∷ []) (g y ∷ []))
      ∙ ap (λ r. fold_step r (λ w s. foldl_from (run env (suc n)) fn w (map g ys) s))
          (applied-values env n fn c (g y ∷ []) (g x) (g (op x y)) m e (h m.stack x y) l)
      ∙ foldl_from-values op (op x y) ys e h l

module _ {G A : Type 0} (env : Env G) (n fn c : ℕ) (g : A → Value) (below : List Value)
    (m : Machine G) where
  -- `map` of a function in C over the values that `g` gives for `xs`. When the function gives `f x` for
  -- each of them, takes it off its frame and changes nothing else, `map` returns the list of the values
  -- of `f`, in the same order, and changes nothing else.
  pub map_fun-values :
      (f : A → Value) (xs : List A)
      → env.function fn ≡ cfun c
      → ((s : List Value) (x : A)
          → env.call_c (run env n) c 1 (on_frame s (g x ∷ []) m)
            ≡ some (some (f x), on_frame s [] m))
      → map_fun
          (run env (suc n))
          (on_frame below (quoted_list (map g xs) ∷ new_function_value fn ∷ []) m)
        ≡ some (some (quoted_list (map f xs)), on_frame below [] m)
  unfolding map_fun
  map_fun-values f xs e h =
      let args =
        (get_args_strict-Fits below m (some t_list) (some t_function ∷ [])
          (quoted_list (map g xs) ∷ new_function_value fn ∷ [])
          (fits_cons refl (fits_cons refl fits_nil))).0 in
      let k = run env (suc n) in
      ap (λ r. map_of k r) args
      ∙ ap (λ vs. Option.map listed (map_from k fn vs (on_frame below [] m)))
          (elements-values_of (map g xs))
      ∙ ap (λ r. Option.map listed r)
          (map_from-values env n fn c g (on_frame below [] m) f xs e h (frame_end-on_frame below m))

  -- `foldl` of a function in C over the values that `g` gives for `xs`. When the function gives `op x y`
  -- for the values of `x` and `y`, and changes nothing else, `foldl` returns the value of the fold of
  -- `xs` from the left, and changes nothing else.
  pub foldl_fun-values :
      (op : A → A → A) (x : A) (xs : List A)
      → env.function fn ≡ cfun c
      → ((s : List Value) (x y : A)
          → env.call_c (run env n) c 2 (on_frame s (g x ∷ g y ∷ []) m)
            ≡ some (some (g (op x y)), on_frame s [] m))
      → foldl_fun
          (run env (suc n))
          (on_frame below (g x ∷ quoted_list (map g xs) ∷ new_function_value fn ∷ []) m)
        ≡ some (some (g (fold_left op x xs)), on_frame below [] m)
  unfolding foldl_fun
  foldl_fun-values op x xs e h =
      let args =
        (get_args_strict-Fits below m none (some t_list ∷ some t_function ∷ [])
          (g x ∷ quoted_list (map g xs) ∷ new_function_value fn ∷ [])
          (fits_cons refl (fits_cons refl (fits_cons refl fits_nil)))).0 in
      let k = run env (suc n) in
      ap (λ r. foldl_of k r) args
      ∙ ap (λ vs. foldl_from k fn (g x) vs (on_frame below [] m)) (elements-values_of (map g xs))
      ∙ foldl_from-values env n fn c g (on_frame below [] m) op x xs e h
          (frame_end-on_frame below m)
