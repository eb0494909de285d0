-- ===== src/Builtins/Fold.antt =====
-- `plus`, `mul` and `minus` of src/lib.c on a frame of numbers.
use ak_lisp.Base.{
  ℕ, zero, suc, ◌<◌, none, some, List, [], ◌∷◌, ◌++◌, ◌≡◌, refl, ap, ◌∙◌, arith, length,
  length-append,
}
use ak_lisp.Values.{Value, get_number, new_number_value}
use ak_lisp.Machine.{Machine, raise, not_a_number, frame_pop}
use ak_lisp.Machine.OnFrame.{on_frame, frame_pop-on_frame, frame_shift-on_frame, frame_shift-empty}
use ak_lisp.Builtins.{Arith}
use ak_lisp.Builtins.Args.{number_of, pop_number}
use ak_lisp.Builtins.Numbers.{
  popped, pop_numbers, plus, mul, subtract, minus_from, minus_first, minus,
}

abbrev pub fold_left : {A : Type 0} → (A → A → A) → A → List A → A
fold_left op acc [] = acc
fold_left op acc (x ∷ xs) = fold_left op (op acc x) xs

abbrev pub numbers : List ℕ → List Value
numbers [] = []
numbers (x ∷ xs) = new_number_value x ∷ numbers xs

-- The values `vs`, then the numbers `xs` from the last to the first.
abbrev pub then_numbers : List Value → List ℕ → List Value
then_numbers vs [] = vs
then_numbers vs (x ∷ xs) = then_numbers vs xs ++ (new_number_value x ∷ [])

-- A round for each number, then `n`.
abbrev rounds : List ℕ → ℕ → ℕ
rounds [] n = n
rounds (x ∷ xs) n = suc (rounds xs n)

suc-rounds : (xs : List ℕ) (n : ℕ) → suc (rounds xs n) ≡ rounds xs (suc n)
suc-rounds [] n = refl
suc-rounds (x ∷ xs) n = ap (λ k. suc k) (suc-rounds xs n)

length-then_numbers :
    (vs : List Value) (xs : List ℕ) → length (then_numbers vs xs) ≡ rounds xs (length vs)
length-then_numbers vs [] = refl
length-then_numbers vs (x ∷ xs) =
    let e = length-append (then_numbers vs xs) (new_number_value x ∷ []) in
    omega (arith, e, length-then_numbers vs xs)

module _ (op : ℕ → ℕ → ℕ) {G : Type 0} (m : Machine G) (below : List Value) where
  pop_numbers-then_numbers :
      (n acc : ℕ) (vs : List Value) (xs : List ℕ)
      → pop_numbers op (rounds xs n) acc (on_frame below (then_numbers vs xs) m)
        ≡ pop_numbers op n (fold_left op acc xs) (on_frame below vs m)
  unfolding pop_number
  pop_numbers-then_numbers n acc vs [] = refl
  pop_numbers-then_numbers n acc vs (x ∷ xs) =
      ap
        (λ r.
          popped acc (number_of r.0, r.1) (λ y s. pop_numbers op (rounds xs n) y s) (λ y. op acc y))
        (frame_pop-on_frame below (then_numbers vs xs) (new_number_value x) m)
      ∙ pop_numbers-then_numbers n (op acc x) vs xs

  pop_numbers-all :
      (acc : ℕ) (xs : List ℕ)
      → pop_numbers op
          (suc (length (then_numbers [] xs)))
          acc
          (on_frame below (then_numbers [] xs) m)
        ≡ (fold_left op acc xs, on_frame below [] m)
  unfolding pop_number frame_pop
  pop_numbers-all acc xs =
      let fuel = ap (λ k. suc k) (length-then_numbers [] xs) ∙ suc-rounds xs 0 in
      ap (λ k. pop_numbers op k acc (on_frame below (then_numbers [] xs) m)) fuel
      ∙ pop_numbers-then_numbers 1 acc [] xs

  pop_numbers-until :
      (acc : ℕ) (vs : List Value) (v : Value) (xs : List ℕ)
      → get_number v ≡ none
      → pop_numbers op
          (suc (length (then_numbers (vs ++ (v ∷ [])) xs)))
          acc
          (on_frame below (then_numbers (vs ++ (v ∷ [])) xs) m)
        ≡ (fold_left op acc xs, on_frame below vs m)
  unfolding pop_number
  pop_numbers-until acc vs v xs h =
      let ws = vs ++ (v ∷ []) in
      let fuel = ap (λ k. suc k) (length-then_numbers ws xs) ∙ suc-rounds xs (length ws) in
      let end = fold_left op acc xs in
      let go : ℕ → Machine G → ℕ × Machine G = λ y s. pop_numbers op (length ws) y s in
      ap (λ k. pop_numbers op k acc (on_frame below (then_numbers ws xs) m)) fuel
      ∙ pop_numbers-then_numbers (suc (length ws)) acc ws xs
      ∙ ap (λ r. popped end (number_of r.0, r.1) go (λ y. op end y))
          (frame_pop-on_frame below vs v m)
      ∙ ap (λ o. popped end (o, on_frame below vs m) go (λ y. op end y)) h

module _ (a : Arith) {G : Type 0} (m : Machine G) (below : List Value) where
  -- The addition and the multiplication of a frame of numbers fold them from the last to the first, from
  -- 0 and from 1, and leave the frame empty.
  pub plus-mul :
      (xs : List ℕ)
      → (plus a (on_frame below (then_numbers [] xs) m)
          ≡ (some (new_number_value (fold_left a.add a.zero_double xs)), on_frame below [] m))
        × (mul a (on_frame below (then_numbers [] xs) m)
            ≡ (some (new_number_value (fold_left a.mul a.one_double xs)), on_frame below [] m))
  unfolding plus mul
  plus-mul xs = (
    ap (λ r. (some (new_number_value r.0), r.1)) (pop_numbers-all a.add m below a.zero_double xs),
    ap (λ r. (some (new_number_value r.0), r.1)) (pop_numbers-all a.mul m below a.one_double xs),
  )

  -- A value `v` that is no number ends the addition and the multiplication: the result is that of the
  -- numbers `xs` after it, no error is raised, and the values before it are not read.
  pub plus-mul_stop :
      (vs : List Value) (v : Value) (xs : List ℕ)
      → get_number v ≡ none
      → (plus a (on_frame below (then_numbers (vs ++ (v ∷ [])) xs) m)
          ≡ (some (new_number_value (fold_left a.add a.zero_double xs)), on_frame below vs m))
        × (mul a (on_frame below (then_numbers (vs ++ (v ∷ [])) xs) m)
            ≡ (some (new_number_value (fold_left a.mul a.one_double xs)), on_frame below vs m))
  unfolding plus mul
  plus-mul_stop vs v xs h = (
    ap (λ r. (some (new_number_value r.0), r.1))
        (pop_numbers-until a.add m below a.zero_double vs v xs h),
    ap (λ r. (some (new_number_value r.0), r.1))
        (pop_numbers-until a.mul m below a.one_double vs v xs h),
  )

  minus_from-numbers :
      (n acc : ℕ) (xs : List ℕ)
      → length (numbers xs) < n
      → minus_from a n acc (on_frame below (numbers xs) m)
        ≡ (some (new_number_value (fold_left a.sub acc xs)), on_frame below [] m)
  minus_from-numbers zero acc xs h = absurd (omega arith)
  minus_from-numbers (suc n) acc [] h =
      ap (λ r. subtract a acc r (λ y s. minus_from a n y s)) (frame_shift-empty below m)
  minus_from-numbers (suc n) acc (x ∷ xs) h =
      ap (λ r. subtract a acc r (λ y s. minus_from a n y s))
        (frame_shift-on_frame below (numbers xs) (new_number_value x) m)
      ∙ minus_from-numbers n (a.sub acc x) xs (omega arith)

  minus_from-error :
      (n acc : ℕ) (xs : List ℕ) (v : Value) (vs : List Value)
      → get_number v ≡ none
      → length (numbers xs) < n
      → minus_from a n acc (on_frame below (numbers xs ++ (v ∷ vs)) m)
        ≡ (some (new_number_value a.zero_double), raise not_a_number (on_frame below vs m))
  minus_from-error zero acc xs v vs h l = absurd (omega arith)
  minus_from-error (suc n) acc [] v vs h l =
      ap (λ r. subtract a acc r (λ y s. minus_from a n y s)) (frame_shift-on_frame below vs v m)
      ∙ rw (subtract, h) refl
  minus_from-error (suc n) acc (x ∷ xs) v vs h l =
      ap (λ r. subtract a acc r (λ y s. minus_from a n y s))
        (frame_shift-on_frame below (numbers xs ++ (v ∷ vs)) (new_number_value x) m)
      ∙ minus_from-error n (a.sub acc x) xs v vs h (omega arith)

  -- The subtraction of a frame of numbers takes from the first the others, from left to right, and
  -- leaves the frame empty.
  pub minus-numbers :
      (x : ℕ) (xs : List ℕ)
      → minus a (on_frame below (numbers (x ∷ xs)) m)
        ≡ (some (new_number_value (fold_left a.sub x xs)), on_frame below [] m)
  unfolding minus
  minus-numbers x xs =
      let n = suc (length (numbers (x ∷ xs))) in
      ap (λ r. minus_first a n r) (frame_shift-on_frame below (numbers xs) (new_number_value x) m)
      ∙ minus_from-numbers n x xs (omega arith)

  -- A value that is no number is an error of the subtraction wherever it stands: 0 is returned, and the
  -- values after it stay in the frame.
  pub minus-error :
      (xs : List ℕ) (v : Value) (vs : List Value)
      → get_number v ≡ none
      → minus a (on_frame below (numbers xs ++ (v ∷ vs)) m)
        ≡ (some (new_number_value a.zero_double), raise not_a_number (on_frame below vs m))
  unfolding minus
  minus-error [] v vs h =
      ap (λ r. minus_first a (suc (suc (length vs))) r) (frame_shift-on_frame below vs v m)
      ∙ rw (minus_first, h) refl
  minus-error (x ∷ xs) v vs h =
      let rest = numbers xs ++ (v ∷ vs) in
      let size = length-append (numbers xs) (v ∷ vs) in
      ap (λ r. minus_first a (suc (suc (length rest))) r)
        (frame_shift-on_frame below rest (new_number_value x) m)
      ∙ minus_from-error (suc (suc (length rest))) x xs v vs h (omega arith)
