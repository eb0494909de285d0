-- ===== src/Vector/Limits.antt =====
-- Where src/vector.c leaves its range: a vector of one slot, and a truncation by too much.
use ak_lisp.Base.{ℕ, ◌-◌, ◌^◌, ◌<◌, ◌≡◌, none, List, arith, ltb, if◌then◌else◌}
use ak_lisp.Vector.{Vector, push, reserve, grow, is_grow_need, at, truncate_by}
use ak_lisp.Vector.Bounds.{IsValid, le-mul}

-- A vector that was made with one slot never grows: with one item in it, `akl_vector_push` of any
-- item copies to NULL.
pub push-one_slot :
    (junk : ℕ) (v : Vector) (d : List ℕ) → v.av_size ≡ 1 → v.av_count ≡ 1 → push junk v d ≡ none
unfolding push reserve grow is_grow_need at
push-one_slot junk v d s c = ground arith

-- `akl_vector_truncate_by` drops `n` items of a valid vector that has as many; asked for more it
-- does not clear the vector, but wraps the count to `2 ^ 32` less the difference.
pub truncate_by_lem :
    {v : Vector} (n : ℕ)
    → IsValid v
    → n < 2 ^ 32
    → (truncate_by v n).av_count
      ≡ (if ltb v.av_count n then 2 ^ 32 - (n - v.av_count) else v.av_count - n)
unfolding truncate_by
truncate_by_lem {v} n w h = ground (arith, le-mul v.av_size v.av_msize w.wide)
