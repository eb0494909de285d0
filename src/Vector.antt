-- ===== src/Vector.antt =====
-- The growable array of src/vector.c, byte by byte: `av_vector` is the block of
-- `av_size * av_msize` bytes, and a pointer into it is an offset.
pub mod Bounds
pub mod Items
pub mod Limits
mod Tests
use ak_lisp.Base.{
  ℕ, zero, suc, ◌+◌, ◌-◌, ◌*◌, ◌/◌, ◌%◌, ◌^◌, Bool, true, not, ◌&&◌, Option, none, some, List,
  replicate, leb, ltb, ◌==◌, if◌then◌else◌, slice, take, write_bytes, resize,
}

pub record Vector : Type 0 where
  pub av_vector : List ℕ
  pub av_count : ℕ
  pub av_size : ℕ
  pub av_msize : ℕ

-- `unsigned int` arithmetic
abbrev pub u32 : ℕ → ℕ
u32 n = n % 2 ^ 32

abbrev pub vector_defsize : ℕ
vector_defsize = 10

abbrev pub pointer_size : ℕ
pointer_size = 8

pub init : ℕ → ℕ → Vector
init nmemb size =
    let n = if nmemb == 0 then vector_defsize else nmemb in
    let m = if size == 0 then pointer_size else size in
    record { av_vector = replicate (n * m) 0; av_size = n; av_count = 0; av_msize = m }

pub is_empty : Option Vector → Bool
is_empty none = true
is_empty (some v) = v.av_count == 0

-- The pointer to a slot, `none` for NULL.
unfoldable pub at : Vector → ℕ → Option ℕ
at v ind = if ltb ind v.av_size then some (u32 (ind * v.av_msize)) else none

pub pop : Vector → Option ℕ × Vector
pop v =
    if v.av_count == 0
    then (none, v)
    else (at v (v.av_count - 1), record v { av_count = v.av_count - 1 })

pub is_grow_need : Vector → Bool
is_grow_need v = leb v.av_size (u32 (v.av_count + 1))

pub last : Vector → Option ℕ
unfolding at
last v = at v v.av_count

pub truncate_by : Vector → ℕ → Vector
truncate_by v n =
    let left = u32 (v.av_count + 2 ^ 32 - n) in
    record v { av_count = if ltb 0 left then left else 0 }

-- `akl_vector_set` copies `av_size` bytes, of the memory `d` behind its argument.
pub set : Vector → ℕ → List ℕ → Vector
set v w d = record v {
  av_vector = write_bytes v.av_vector (u32 (w * v.av_msize)) (take v.av_size d);
}

-- The item that a pointer shows.
pub item_at : Vector → Option ℕ → Option (List ℕ)
item_at v none = none
item_at v (some p) = some (slice v.av_vector p v.av_msize)

-- The loop of `akl_vector_find` with `n` rounds left. `same` says whether the comparison gave 0.
pub find_from : Vector → (Option (List ℕ) → Bool) → ℕ → ℕ → Option ℕ
find_from v same zero i = none
find_from v same (suc n) i =
    let rest = find_from v same n (i + 1) in if same (item_at v (at v i)) then some i else rest

-- The index that is stored through `ind`; `none` is -1.
pub find : Vector → (Option (List ℕ) → Bool) → Option ℕ
find v same = find_from v same v.av_count 0

-- `junk` is what `realloc` leaves in the bytes that it adds.
module _ (junk : ℕ) where
  pub grow : Vector → ℕ → Vector
  grow v to =
      let n = if not (to == 0) && ltb v.av_size to then to else u32 (v.av_size + v.av_size / 2) in
      record v { av_size = n; av_vector = resize junk v.av_vector (u32 (n * v.av_msize)) }

  pub reserve : Vector → Option ℕ × Vector
  unfolding grow is_grow_need at
  reserve v =
      let w = if is_grow_need v then grow v 0 else v in
      (at w w.av_count, record w { av_count = u32 (w.av_count + 1) })

  -- The loop of `akl_vector_reserve_more`.
  reserve_times : ℕ → Vector → Vector
  unfolding reserve
  reserve_times zero v = v
  reserve_times (suc n) v = reserve_times n (reserve v).1

  pub reserve_more : Vector → ℕ → Option ℕ × Vector
  unfolding reserve reserve_times
  reserve_more v cnt = let (start, w) = reserve v in (start, reserve_times cnt w)

  -- `none` is the fault of a copy to NULL. `d` is the item of `av_msize` bytes.
  pub push : Vector → List ℕ → Option (ℕ × Vector)
  push v d =
      let (ptr, w) = reserve v in
      elim ptr [
        | none ↦ none
        | some p ↦
            some
              (u32 (w.av_count + 2 ^ 32 - 1), record w { av_vector = write_bytes w.av_vector p d })
      ]
