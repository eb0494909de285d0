-- ===== src/Builtins/Made.antt =====
-- `list`, `head`, `tail`, `last`, `length` and `range` of src/lib.c on frames.
use mathlib.Core.Option
use ak_lisp.Base.{
  ℕ, zero, suc, ◌+◌, ◌-◌, ◌<◌, true, false, none, some, List, [], ◌∷◌, ◌≡◌, refl, ap, ◌∙◌, arith,
  length, get_elem?, ◌==◌, ltb, if◌then◌else◌,
}
use ak_lisp.Values.{Value, t_number, new_number_value}
use ak_lisp.Machine.{Machine}
use ak_lisp.Machine.OnFrame.{on_frame, frame_shift-on_frame, frame_shift-empty, frame_pop-on_frame}
use ak_lisp.Builtins.{Arith}
use ak_lisp.Builtins.Fits.{fits_nil, fits_cons, get_args_strict-Fits}
use ak_lisp.Builtins.Sequences.{
  elements, values_of, quoted_list, of_popped, one_char, rest_of_string, rest_of_list, ls_head,
  ls_tail, list_fun, shift_all, gathered, collected, numbers_from, range, range_from, range_of,
}

pub elements-values_of : (vs : List Value) → elements (values_of vs) ≡ vs
unfolding elements values_of
elements-values_of [] = refl
elements-values_of (v ∷ vs) = ap (λ r. v ∷ r) (elements-values_of vs)

module _ {G : Type 0} (below : List Value) (m : Machine G) where
  shift_all-on_frame :
      (n : ℕ) (vs : List Value)
      → length vs < n
      → shift_all n (on_frame below vs m) ≡ (vs, on_frame below [] m)
  shift_all-on_frame zero vs h = absurd (omega arith)
  shift_all-on_frame (suc n) [] h =
      ap (λ r. gathered r (λ s. shift_all n s)) (frame_shift-empty below m)
  shift_all-on_frame (suc n) (v ∷ vs) h =
      ap (λ r. gathered r (λ s. shift_all n s)) (frame_shift-on_frame below vs v m)
      ∙ ap (λ r. (v ∷ r.0, r.1)) (shift_all-on_frame n vs (omega arith))

  -- `list` returns the values of its frame in their order, as a list marked as quoted, and leaves the
  -- frame empty.
  pub list_fun-on_frame :
      (vs : List Value)
      → list_fun (on_frame below vs m) ≡ (some (quoted_list vs), on_frame below [] m)
  unfolding list_fun
  list_fun-on_frame vs = ap collected (shift_all-on_frame (suc (length vs)) vs (omega arith))

  -- On a list that is not empty `head` returns its first element and `tail` the list of the others.
  pub ls_head-ls_tail :
      (v : Value) (vs : List Value)
      → (ls_head (on_frame below (quoted_list (v ∷ vs) ∷ []) m) ≡ (some v, on_frame below [] m))
        × (ls_tail (on_frame below (quoted_list (v ∷ vs) ∷ []) m)
            ≡ (some (quoted_list vs), on_frame below [] m))
  unfolding ls_head ls_tail elements values_of
  ls_head-ls_tail v vs =
      let e = frame_pop-on_frame below [] (quoted_list (v ∷ vs)) m in
      (
        ap (λ r. of_popped (λ s. one_char (get_elem? s 0)) (λ ws. get_elem? ws 0) r) e,
        ap (λ r. of_popped rest_of_string rest_of_list r) e
            ∙ ap (λ ws. (some (quoted_list ws), on_frame below [] m)) (elements-values_of vs),
      )

module _ (a : Arith) where
  length-numbers_from : (n f : ℕ) → length (numbers_from a n f) ≡ n
  length-numbers_from zero f = refl
  length-numbers_from (suc n) f = ap (λ k. suc k) (length-numbers_from n (suc f))

  get_elem?-numbers_from :
      (n f i : ℕ)
      → get_elem? (numbers_from a n f) i
        ≡ (if ltb i n then some (new_number_value (a.of_int (f + i))) else none)
  get_elem?-numbers_from zero f i = ground arith
  get_elem?-numbers_from (suc n) f zero =
      let e : f ≡ f + 0 = omega arith in
      let z : true ≡ ltb 0 (suc n) = ground arith in
      ap (λ k. some (new_number_value (a.of_int k))) e
      ∙ ap (λ b. if b then some (new_number_value (a.of_int (f + 0))) else none) z
  get_elem?-numbers_from (suc n) f (suc i) =
      let e : suc f + i ≡ f + suc i = omega arith in
      let z : ltb i n ≡ ltb (suc i) (suc n) = ground arith in
      get_elem?-numbers_from n (suc f) i
      ∙ ap (λ k. if ltb i n then some (new_number_value (a.of_int k)) else none) e
      ∙ ap (λ b. if b then some (new_number_value (a.of_int (f + suc i))) else none) z

  range_from-some :
      (f t : ℕ) → t < 4_294_967_295 → range_from a f t ≡ some (numbers_from a (suc t - f) f)
  range_from-some f t h =
      let e : (t == 4_294_967_295) ≡ false = ground (arith, h) in
      ap
        (λ b.
          if b then (if ltb t f then some [] else none) else some (numbers_from a (suc t - f) f))
        e

  -- `range` on two numbers whose integers are `f` and `t`, `t` not the greatest `int`: the list that it
  -- returns has `t + 1 - f` elements, none when `t` is below `f`, and the element at index `i` is the
  -- number `f + i`.
  pub range-elements :
      {G : Type 0} (below : List Value) (m : Machine G) (x y i : ℕ)
      → a.to_int y < 4_294_967_295
      → (range a (on_frame below (new_number_value x ∷ new_number_value y ∷ []) m)
          ≡ some (
            some (quoted_list (numbers_from a (suc (a.to_int y) - a.to_int x) (a.to_int x))),
            on_frame below [] m,
          ))
        × (length (numbers_from a (suc (a.to_int y) - a.to_int x) (a.to_int x))
            ≡ suc (a.to_int y) - a.to_int x)
        × (get_elem? (numbers_from a (suc (a.to_int y) - a.to_int x) (a.to_int x)) i ≡ (
            if ltb i (suc (a.to_int y) - a.to_int x)
            then some (new_number_value (a.of_int (a.to_int x + i)))
            else none))
  unfolding range
  range-elements below m x y i h =
      let args =
        (get_args_strict-Fits below m (some t_number) (some t_number ∷ [])
          (new_number_value x ∷ new_number_value y ∷ [])
          (fits_cons refl (fits_cons refl fits_nil))).0 in
      (
        ap (λ r. range_of a r) args
            ∙ ap (λ r. Option.map (λ xs. (some (quoted_list xs), on_frame below [] m)) r)
                (range_from-some _ _ h),
        length-numbers_from _ _,
        get_elem?-numbers_from _ _ i,
      )
