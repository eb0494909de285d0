-- ===== src/Builtins/Logic.antt =====
-- `and` and `or` of src/lib.c, which read a frame from its end.
use ak_lisp.Base.{
  ℕ, zero, suc, Bool, true, false, not, some, List, [], ◌∷◌, ◌++◌, ◌≡◌, ap, ◌∙◌, arith, length,
  length-append, if◌then◌else◌, ◌<◌,
}
use ak_lisp.Values.{Value, is_nil, new_nil_value, new_true_value}
use ak_lisp.Machine.{Machine}
use ak_lisp.Machine.OnFrame.{on_frame, frame_pop-on_frame, frame_pop-empty}
use ak_lisp.Builtins.Predicates.{until_value, pop_until, and_fun, or_fun}

abbrev pub backwards : List Value → List Value
backwards [] = []
backwards (v ∷ vs) = backwards vs ++ (v ∷ [])

abbrev pub any_of : (Value → Bool) → List Value → Bool
any_of test [] = false
any_of test (v ∷ vs) = if test v then true else any_of test vs

-- The values behind the first that passes the test.
abbrev pub behind : (Value → Bool) → List Value → List Value
behind test [] = []
behind test (v ∷ vs) = if test v then vs else behind test vs

module _ {G : Type 0} (below : List Value) (m : Machine G) where
  pop_until-backwards :
      (stops : Value → Bool) (found otherwise : Value) (n : ℕ) (vs : List Value)
      → length (backwards vs) < n
      → pop_until stops found otherwise n (on_frame below (backwards vs) m) ≡ (
        some (if any_of stops vs then found else otherwise),
        on_frame below (backwards (behind stops vs)) m,
      )
  pop_until-backwards stops found otherwise zero vs h = absurd (omega arith)
  pop_until-backwards stops found otherwise (suc n) [] h =
      ap (λ r. until_value stops found otherwise r (λ s. pop_until stops found otherwise n s))
        (frame_pop-empty below m)
  pop_until-backwards stops found otherwise (suc n) (v ∷ vs) h =
      let size = length-append (backwards vs) (v ∷ []) in
      let rest = pop_until-backwards stops found otherwise n vs (omega arith) in
      ap (λ r. until_value stops found otherwise r (λ s. pop_until stops found otherwise n s))
        (frame_pop-on_frame below (backwards vs) v m)
      ∙ grind (arith, rest)

  -- On a frame whose values are, from the last to the first, `vs`: `and` is nil when one of them is nil
  -- and T otherwise, `or` is T when one of them is not nil and nil otherwise. Both read no further than
  -- to that value and leave those before it in the frame.
  pub and_fun-or_fun :
      (vs : List Value)
      → (and_fun (on_frame below (backwards vs) m) ≡ (
        some (if any_of is_nil vs then new_nil_value else new_true_value),
        on_frame below (backwards (behind is_nil vs)) m,
      ))
        × (or_fun (on_frame below (backwards vs) m) ≡ (
          some (if any_of (λ v. not (is_nil v)) vs then new_true_value else new_nil_value),
          on_frame below (backwards (behind (λ v. not (is_nil v)) vs)) m,
        ))
  unfolding and_fun or_fun
  and_fun-or_fun vs = (
    pop_until-backwards is_nil new_nil_value new_true_value (suc (length (backwards vs))) vs
        (omega arith),
    pop_until-backwards (λ v. not (is_nil v)) new_true_value new_nil_value
        (suc (length (backwards vs))) vs (omega arith),
  )
