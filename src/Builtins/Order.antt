-- ===== src/Builtins/Order.antt =====
-- The six comparisons of src/lib.c, with two arguments and with another number of them.
use mathlib.Core.Option
use ak_lisp.Base.{
  ℕ, Bool, true, false, not, ◌||◌, Option, some, List, [], ◌∷◌, ◌≡◌, refl, ap, ◌∙◌, ◌==◌,
}
use ak_lisp.Values.{Value, Order, below, same, above, Library}
use ak_lisp.Values.Compare.{compare_values}
use ak_lisp.Machine.{Machine, raise, expected_arguments}
use ak_lisp.Machine.OnFrame.{on_frame, frame_shift-on_frame}
use ak_lisp.Builtins.{Returned, truth}
use ak_lisp.Builtins.Args.{get_args, shift_args, taken}
use ak_lisp.Builtins.Predicates.{
  Compared, compared, by_sign, bad_args, sign, is_gt, is_eq, is_lt, get_and_compare_values, gt,
  gteq, lt, lteq, neq, eq,
}

abbrev pub answers : {G : Type 0} → Bool → Machine G → Option (Returned G)
answers b m = some (some (truth b), m)

is_gt-is_eq : (o : Order) → (is_gt (sign o) || is_eq (sign o)) ≡ not (is_lt (sign o))
is_gt-is_eq below = refl
is_gt-is_eq same = refl
is_gt-is_eq above = refl

is_lt-is_eq : (o : Order) → (is_lt (sign o) || is_eq (sign o)) ≡ not (is_gt (sign o))
is_lt-is_eq below = refl
is_lt-is_eq same = refl
is_lt-is_eq above = refl

module _ (c : Library) (n : ℕ) {G : Type 0} where
  get_args-two :
      (under : List Value) (v w : Value) (m : Machine G)
      → get_args 2 (on_frame under (v ∷ w ∷ []) m) ≡ (some (v ∷ w ∷ []), on_frame under [] m)
  unfolding get_args
  get_args-two under v w m =
      ap (λ r. taken r (shift_args 1 r.1)) (frame_shift-on_frame under (w ∷ []) v m)
      ∙ ap (λ r. taken (some v, on_frame under (w ∷ []) m) (taken r (shift_args 0 r.1)))
          (frame_shift-on_frame under [] w m)

  get_and_compare_values-two :
      (under : List Value) (v w : Value) (o : Order) (m : Machine G)
      → compare_values c n (some v) (some w) ≡ some o
      → get_and_compare_values c n (on_frame under (v ∷ w ∷ []) m)
        ≡ some (sign o, on_frame under [] m)
  unfolding get_and_compare_values
  get_and_compare_values-two under v w o m h =
      ap (λ r. compared c n r) (get_args-two under v w m)
      ∙ ap (λ r. Option.map (λ p. (sign p, on_frame under [] m)) r) h

  get_and_compare_values-count :
      (m : Machine G)
      → (2 == m.frame_count) ≡ false
      → get_and_compare_values c n m ≡ some (bad_args, raise expected_arguments m)
  unfolding get_and_compare_values get_args
  get_and_compare_values-count m h = rw h refl

  by_sign-some :
      (test : Compared → Bool) (m r : Machine G) (o : Compared)
      → get_and_compare_values c n m ≡ some (o, r)
      → by_sign c n test m ≡ answers (test o) r
  by_sign-some test m r o h = ap (λ x. Option.map (λ p. (some (truth (test p.0)), p.1)) x) h

  -- On a frame of two values that compare with the result `o`, the six comparisons are those of `o`, and
  -- the frame is left empty.
  pub comparisons-two :
      (under : List Value) (v w : Value) (o : Order) (m : Machine G)
      → compare_values c n (some v) (some w) ≡ some o
      → (lt c n (on_frame under (v ∷ w ∷ []) m) ≡ answers (is_lt (sign o)) (on_frame under [] m))
        × (gteq c n (on_frame under (v ∷ w ∷ []) m)
            ≡ answers (not (is_lt (sign o))) (on_frame under [] m))
        × (gt c n (on_frame under (v ∷ w ∷ []) m) ≡ answers (is_gt (sign o)) (on_frame under [] m))
        × (lteq c n (on_frame under (v ∷ w ∷ []) m)
            ≡ answers (not (is_gt (sign o))) (on_frame under [] m))
        × (eq c n (on_frame under (v ∷ w ∷ []) m) ≡ answers (is_eq (sign o)) (on_frame under [] m))
        × (neq c n (on_frame under (v ∷ w ∷ []) m)
            ≡ answers (not (is_eq (sign o))) (on_frame under [] m))
  unfolding lt gteq gt lteq eq neq
  comparisons-two under v w o m h =
      let e = get_and_compare_values-two under v w o m h in
      let two = λ (test : Compared → Bool).
        by_sign-some test (on_frame under (v ∷ w ∷ []) m) (on_frame under [] m) (sign o) e in
      let to = λ (b : Bool). answers b (on_frame under [] m) in
      (
        two is_lt,
        two (λ r. is_gt r || is_eq r) ∙ ap to (is_gt-is_eq o),
        two is_gt,
        two (λ r. is_lt r || is_eq r) ∙ ap to (is_lt-is_eq o),
        two is_eq,
        two (λ r. not (is_eq r)),
      )

  -- With another number of arguments than two an error is raised, and `<`, `<=` and `!=` are true, `>`,
  -- `>=` and `=` are not.
  pub comparisons-count :
      (m : Machine G)
      → (2 == m.frame_count) ≡ false
      → (lt c n m ≡ answers true (raise expected_arguments m))
        × (lteq c n m ≡ answers true (raise expected_arguments m))
        × (neq c n m ≡ answers true (raise expected_arguments m))
        × (gt c n m ≡ answers false (raise expected_arguments m))
        × (gteq c n m ≡ answers false (raise expected_arguments m))
        × (eq c n m ≡ answers false (raise expected_arguments m))
  unfolding lt gteq gt lteq eq neq
  comparisons-count m h =
      let e = get_and_compare_values-count m h in
      (rw e refl, rw e refl, rw e refl, rw e refl, rw e refl, rw e refl)
