-- ===== src/Vector/Bounds.antt =====
-- The representation invariant of `struct akl_vector`, and that the operations keep it.
use ak_lisp.Base.{
  ℕ, ◌+◌, ◌*◌, ◌/◌, ◌^◌, ◌≤◌, ◌<◌, ◌≡◌, some, length, arith, length-replicate, length-resize,
  resize,
}
use ak_lisp.Vector.{Vector, u32, init, at, grow, reserve, is_grow_need}

pub record IsValid (v : Vector) : Type 0 where
  pub block : length v.av_vector ≡ v.av_size * v.av_msize
  pub room : v.av_count ≤ v.av_size
  pub fits : v.av_size * v.av_msize < 2 ^ 32
  pub wide : 0 < v.av_msize

-- What the next growth needs: two slots at least, and a block that `unsigned int` can measure.
abbrev pub MayGrow : Vector → Type 0
MayGrow v = (2 ≤ v.av_size) × ((v.av_size + v.av_size / 2) * v.av_msize < 2 ^ 32)

pub slot_fits : (i n m : ℕ) → i < n → i * m + m ≤ n * m
slot_fits i n m h = grind arith

pub le-mul : (n m : ℕ) → 0 < m → n ≤ n * m
le-mul n m h = grind arith

pub mul_mono : (a b m : ℕ) → a ≤ b → a * m ≤ b * m
mul_mono a b m h = grind arith

-- `akl_init_vector` yields a valid empty vector, with ten slots by default and a pointer's size.
pub init-IsValid :
    (nmemb size : ℕ)
    → (init nmemb size).av_size * (init nmemb size).av_msize < 2 ^ 32
    → IsValid (init nmemb size) × ((init nmemb size).av_count ≡ 0) × (0 < (init nmemb size).av_size)
unfolding init
init-IsValid nmemb size h =
    ground
      (arith, length-replicate {A = ℕ} ((init nmemb size).av_size * (init nmemb size).av_msize) 0)

-- A slot below `av_size` lies inside the block, and its address does not wrap.
pub at-in_bounds :
    {v : Vector} (i : ℕ)
    → IsValid v
    → i < v.av_size
    → (at v i ≡ some (i * v.av_msize)) × (i * v.av_msize + v.av_msize ≤ length v.av_vector)
unfolding at
at-in_bounds {v} i w h = ground (arith, slot_fits i v.av_size v.av_msize)

module _ (junk : ℕ) where
  pub grow-IsValid :
      {v : Vector}
      → IsValid v
      → MayGrow v
      → IsValid (grow junk v 0)
        × (v.av_size < (grow junk v 0).av_size)
        × ((grow junk v 0).av_count ≡ v.av_count)
        × ((grow junk v 0).av_msize ≡ v.av_msize)
  unfolding grow
  grow-IsValid {v} w g =
      let n : ℕ = v.av_size + v.av_size / 2 in
      let e : u32 n ≡ n = omega (arith, le-mul n v.av_msize w.wide) in
      let f : u32 (n * v.av_msize) ≡ n * v.av_msize = omega arith in
      let l : v.av_size * v.av_msize ≤ n * v.av_msize =
        mul_mono v.av_size n v.av_msize (omega arith) in
      let r : length (resize junk v.av_vector (n * v.av_msize)) ≡ n * v.av_msize =
        length-resize junk v.av_vector (n * v.av_msize) (omega arith) in
      ground (arith, e, f, l, r)

  -- `akl_vector_reserve` keeps the invariant, counts one slot more, and the slot is in the array.
  pub reserve-IsValid :
      {v : Vector}
      → IsValid v
      → MayGrow v
      → IsValid (reserve junk v).1
        × ((reserve junk v).1.av_count ≡ v.av_count + 1)
        × (v.av_count < (reserve junk v).1.av_size)
        × ((reserve junk v).1.av_msize ≡ v.av_msize)
        × ((reserve junk v).0 ≡ some (v.av_count * (reserve junk v).1.av_msize))
  unfolding reserve is_grow_need
  reserve-IsValid {v} w g = ground (
    arith,
    le-mul v.av_size v.av_msize w.wide,
    grow-IsValid w g,
    at-in_bounds {v = grow junk v 0} v.av_count,
    at-in_bounds v.av_count w,
  )
