-- ===== src/Builtins/Numbers.antt =====
-- The functions on numbers of src/lib.c.
use ak_lisp.Base.{ℕ, zero, suc, Option, none, some, [], ◌∷◌, ◌==◌, if◌then◌else◌}
use ak_lisp.Values.{Value, t_number, new_number_value, new_nil_value, get_number}
use ak_lisp.Machine.{Machine, raise, frame_shift, not_a_number, zero_division}
use ak_lisp.Builtins.{Arith, Returned, int_zero, long_zero, truth}
use ak_lisp.Builtins.Args.{Args, number_value, pop_number, shift_number, get_args_strict, with_one}

module _ {G : Type 0} where
  abbrev pub popped :
      ℕ → Option ℕ × Machine G → (ℕ → Machine G → ℕ × Machine G) → (ℕ → ℕ) → ℕ × Machine G
  popped acc (none, m) go next = (acc, m)
  popped acc (some x, m) go next = go (next x) m

  -- The loop of `plus` and `mul`, `n` rounds at most: it ends at NULL or at a value that is no number.
  abbrev pub pop_numbers : (ℕ → ℕ → ℕ) → ℕ → ℕ → Machine G → ℕ × Machine G
  pop_numbers op zero acc m = (acc, m)
  pop_numbers op (suc n) acc m =
      popped acc (pop_number m) (λ x r. pop_numbers op n x r) (λ x. op acc x)

module _ (a : Arith) {G : Type 0} where
  abbrev number_result : ℕ × Machine G → Returned G
  number_result (n, m) = (some (new_number_value n), m)

  unfoldable pub inc : Machine G → Returned G
  inc m =
      with_one (λ v. some (new_number_value (a.add (number_value v) a.one_double)))
        (get_args_strict (some t_number ∷ []) m)

  unfoldable pub dec : Machine G → Returned G
  dec m =
      with_one (λ v. some (new_number_value (a.sub (number_value v) a.one_double)))
        (get_args_strict (some t_number ∷ []) m)

  pub iszero : Machine G → Returned G
  iszero m =
      with_one (λ v. some (truth (a.is_zero (number_value v))))
        (get_args_strict (some t_number ∷ []) m)

  -- Each round takes a value off the frame.
  unfoldable pub plus : Machine G → Returned G
  plus m = number_result (pop_numbers a.add (suc m.frame_count) a.zero_double m)

  unfoldable pub mul : Machine G → Returned G
  mul m = number_result (pop_numbers a.mul (suc m.frame_count) a.one_double m)

  abbrev failed : Machine G → Returned G
  failed m = (some (new_number_value a.zero_double), raise not_a_number m)

  abbrev pub subtract : ℕ → Option Value × Machine G → (ℕ → Machine G → Returned G) → Returned G
  subtract acc (none, m) go = (some (new_number_value acc), m)
  subtract acc (some v, m) go = elim (get_number v) [
    | none ↦ failed m
    | some x ↦ go (a.sub acc x) m
  ]

  abbrev pub minus_from : ℕ → ℕ → Machine G → Returned G
  minus_from zero acc m = (some (new_number_value acc), m)
  minus_from (suc n) acc m = subtract acc (frame_shift m) (λ x r. minus_from n x r)

  abbrev pub minus_first : ℕ → Option Value × Machine G → Returned G
  minus_first n (none, m) = (some (new_number_value a.zero_double), m)
  minus_first n (some v, m) = elim (get_number v) [ none ↦ failed m | some x ↦ minus_from n x m ]

  unfoldable pub minus : Machine G → Returned G
  minus m = minus_first (suc m.frame_count) (frame_shift m)

  abbrev divided : Machine G → Returned G
  divided m = (some new_nil_value, raise zero_division m)

  abbrev pub divide : ℕ → Option ℕ × Machine G → (ℕ → Machine G → Returned G) → Returned G
  divide acc (none, m) go = (some (new_number_value acc), m)
  divide acc (some x, m) go = if a.is_zero x then divided m else go (a.div acc x) m

  abbrev pub ddiv_from : ℕ → ℕ → Machine G → Returned G
  ddiv_from zero acc m = (some (new_number_value acc), m)
  ddiv_from (suc n) acc m = divide acc (shift_number m) (λ x r. ddiv_from n x r)

  abbrev pub ddiv_first : ℕ → Option ℕ × Machine G → Returned G
  ddiv_first n (none, m) = (some (new_number_value a.zero_double), m)
  ddiv_first n (some x, m) = ddiv_from n x m

  unfoldable pub ddiv : Machine G → Returned G
  ddiv m = ddiv_first (suc m.frame_count) (shift_number m)

  -- The test is on the `long`, the division by the `int`: a division by an `int` that is 0 is a fault.
  abbrev pub divide_int :
      ℕ → Option ℕ × Machine G → (ℕ → Machine G → Option (Returned G)) → Option (Returned G)
  divide_int acc (none, m) go = some (some (new_number_value (a.of_long acc)), m)
  divide_int acc (some x, m) go =
      if a.to_long x == long_zero
      then some (divided m)
      else if a.to_int x == int_zero
      then none
      else go (a.div_long acc (a.to_int x)) m

  abbrev pub idiv_from : ℕ → ℕ → Machine G → Option (Returned G)
  idiv_from zero acc m = some (some (new_number_value (a.of_long acc)), m)
  idiv_from (suc n) acc m = divide_int acc (shift_number m) (λ x r. idiv_from n x r)

  abbrev pub idiv_first : ℕ → Option ℕ × Machine G → Option (Returned G)
  idiv_first n (none, m) = some (some (new_number_value (a.of_int int_zero)), m)
  idiv_first n (some x, m) = idiv_from n (a.to_long x) m

  unfoldable pub idiv : Machine G → Option (Returned G)
  idiv m = idiv_first (suc m.frame_count) (shift_number m)

  abbrev remainder : Args G → Option (Returned G)
  remainder (some (v ∷ w ∷ vs), m) =
      let b = a.to_int (number_value w) in
      if b == int_zero
      then none
      else some (some (new_number_value (a.of_int (a.rem_int (a.to_int (number_value v)) b))), m)
  remainder (some (v ∷ []), m) = some (some new_nil_value, m)
  remainder (some [], m) = some (some new_nil_value, m)
  remainder (none, m) = some (some new_nil_value, m)

  -- A remainder by 0 is a fault.
  unfoldable pub mod_int : Machine G → Option (Returned G)
  mod_int m = remainder (get_args_strict (some t_number ∷ some t_number ∷ []) m)
