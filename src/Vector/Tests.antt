-- ===== src/Vector/Tests.antt =====
-- Runs of the vector, and its theorems at concrete vectors.
use ak_lisp.Base.{
  ℕ, ◌≡◌, refl, List, [], ◌∷◌, Bool, false, Option, some, ◌==◌, arith, ◌++◌, write_bytes, resize,
}
use ak_lisp.Vector.{Vector, push, at, reserve, grow, is_grow_need}
use ak_lisp.Vector.Bounds.{IsValid}
use ak_lisp.Vector.Items.{items, push-items}

-- two slots of two bytes, one of them taken
abbrev sample : Vector
sample = record { av_vector = 7 ∷ 8 ∷ 0 ∷ 0 ∷ []; av_count = 1; av_size = 2; av_msize = 2 }

abbrev starts_with_7 : Option (List ℕ) → Bool
starts_with_7 (some (b ∷ r)) = b == 7
starts_with_7 _ = false

sample-IsValid : IsValid sample
sample-IsValid = omega arith

push-sample :
    push 0 sample (5 ∷ 6 ∷ [])
    ≡ some (
      1,
      record { av_vector = 7 ∷ 8 ∷ 5 ∷ 6 ∷ 0 ∷ 0 ∷ []; av_count = 2; av_size = 3; av_msize = 2 },
    )
unfolding push reserve grow is_grow_need at write_bytes resize
push-sample = refl

push-items_example :
    (w : Vector) × (push 0 sample (5 ∷ 6 ∷ []) ≡ some (1, w))
    × IsValid w
    × (items w ≡ items sample ++ ((5 ∷ 6 ∷ []) ∷ []))
push-items_example = push-items 0 (5 ∷ 6 ∷ []) sample-IsValid (omega arith) refl
