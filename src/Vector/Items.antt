-- ===== src/Vector/Items.antt =====
-- src/vector.c against sequences: a valid vector stands for the list of its first `av_count` items.
use ak_lisp.Base.{
  ℕ, zero, suc, ◌+◌, ◌-◌, ◌*◌, ◌/◌, ◌≤◌, ◌<◌, ◌≡◌, ◌≢◌, refl, ap, sym, Bool, true, false, Option,
  some, none, List, [], ◌∷◌, ◌++◌, length, arith, ltb, ◌==◌, ◌∙◌, slice, resize, write_bytes,
  slice-resize, length-write_bytes, slice-write_bytes_self, slice-write_bytes_below, Bool-cases,
  inl, inr, ◌⊎◌, get_elem?, get_elem?-append_left, get_elem?-append_self, length-append,
}
use ak_lisp.Vector.{
  Vector, u32, at, pop, grow, reserve, push, is_grow_need, find, find_from, item_at,
}
use ak_lisp.Vector.Bounds.{
  IsValid, MayGrow, reserve-IsValid, at-in_bounds, slot_fits, mul_mono, le-mul,
}

-- The first `n` items of `m` bytes of a block.
abbrev pub slots : List ℕ → ℕ → ℕ → List (List ℕ)
slots buf m zero = []
slots buf m (suc n) = slots buf m n ++ (slice buf (n * m) m ∷ [])

abbrev pub items : Vector → List (List ℕ)
items v = slots v.av_vector v.av_msize v.av_count

length-slots : (buf : List ℕ) (m n : ℕ) → length (slots buf m n) ≡ n
length-slots buf m zero = refl
length-slots buf m (suc n) =
    omega (arith, length-append (slots buf m n) (slice buf (n * m) m ∷ []), length-slots buf m n)

get_elem?-slots :
    (buf : List ℕ) (m n i : ℕ) → i < n → get_elem? (slots buf m n) i ≡ some (slice buf (i * m) m)
get_elem?-slots buf m zero i h = absurd (omega arith)
get_elem?-slots buf m (suc n) i h = elim (Bool-cases (ltb i n)) [
  | inl less ↦
      get_elem?-append_left (slots buf m n) _ i (ground (arith, length-slots buf m n))
      ∙ get_elem?-slots buf m n i (ground arith)
  | inr last ↦
      let e : i ≡ n = ground arith in
      rw e (
        rw (length-slots buf m n) at
          (get_elem?-append_self (slots buf m n) [] (slice buf (n * m) m)))
]

-- The code tests `av_count == 0` and subtracts 1, `slots` matches on `suc`.
slots_of_ne_zero :
    (buf : List ℕ) (m n : ℕ)
    → n ≢ 0
    → slots buf m n ≡ slots buf m (n - 1) ++ (slice buf ((n - 1) * m) m ∷ [])
slots_of_ne_zero buf m zero h = absurd (h refl)
slots_of_ne_zero buf m (suc n) h =
    let e : n ≡ suc n - 1 = omega arith in
    ap (λ (k : ℕ). slots buf m k ++ (slice buf (k * m) m ∷ [])) e

-- Blocks that agree on the first `n` items hold the same items.
slots_agree :
    (a b : List ℕ) (m n : ℕ)
    → ((i : ℕ) → i < n → slice a (i * m) m ≡ slice b (i * m) m)
    → slots a m n ≡ slots b m n
slots_agree a b m zero h = refl
slots_agree a b m (suc n) h = rw (slots_agree a b m n (λ i l. h i (omega arith)), h n (omega arith))

slots-resize :
    (junk : ℕ) (buf : List ℕ) (m n k : ℕ)
    → length buf ≤ k
    → n * m ≤ length buf
    → slots (resize junk buf k) m n ≡ slots buf m n
slots-resize junk buf m n k h l =
    slots_agree _ _ m n
      λ i b. slice-resize junk buf k (i * m) m h (omega (arith, slot_fits i n m b))

slots-write_bytes :
    (buf d : List ℕ) (m n : ℕ)
    → n * m ≤ length buf
    → slots (write_bytes buf (n * m) d) m n ≡ slots buf m n
slots-write_bytes buf d m n l =
    slots_agree _ _ m n λ i b. slice-write_bytes_below buf (n * m) (i * m) m d (slot_fits i n m b) l

-- Writing the last item of a valid vector.
write_last :
    (u : Vector) (d : List ℕ) (n : ℕ)
    → IsValid u
    → u.av_count ≡ suc n
    → length d ≡ u.av_msize
    → let u' = record u { av_vector = write_bytes u.av_vector (n * u.av_msize) d } in
      IsValid u' × (items u' ≡ slots u.av_vector u.av_msize n ++ (d ∷ []))
write_last u d n w c e =
    let fits = slot_fits n u.av_size u.av_msize (omega arith) in
    let block = w.block in
    let old = slots-write_bytes u.av_vector d u.av_msize n (omega arith) in
    let new : slice (write_bytes u.av_vector (n * u.av_msize) d) (n * u.av_msize) (length d) ≡ d =
      slice-write_bytes_self u.av_vector (n * u.av_msize) d (omega arith) in
    let len = length-write_bytes u.av_vector (n * u.av_msize) d (omega arith) in
    (
      record { block = len ∙ block; room = w.room; fits = w.fits; wide = w.wide },
      rw (c, old) (ap (λ r. slots u.av_vector u.av_msize n ++ (r ∷ [])) (rw e at new)),
    )

module _ (junk : ℕ) where
  items-grow : {v : Vector} → IsValid v → MayGrow v → items (grow junk v 0) ≡ items v
  unfolding grow
  items-grow {v} w g =
      let n : ℕ = v.av_size + v.av_size / 2 in
      let e : u32 n ≡ n = omega (arith, le-mul n v.av_msize w.wide) in
      let f : u32 (n * v.av_msize) ≡ n * v.av_msize = omega arith in
      let l = mul_mono v.av_size n v.av_msize (omega arith) in
      let k = mul_mono v.av_count v.av_size v.av_msize w.room in
      rw (e, f)
        (slots-resize junk v.av_vector v.av_msize v.av_count (n * v.av_msize) (omega arith)
          (omega arith))

  -- what `akl_vector_reserve` leaves in the slots before the new one
  slots-reserve :
      {v : Vector}
      → IsValid v
      → MayGrow v
      → slots (reserve junk v).1.av_vector (reserve junk v).1.av_msize v.av_count ≡ items v
  unfolding reserve
  slots-reserve {v} w g = elim (Bool-cases (is_grow_need v)) [
    | inl more ↦ rw more (items-grow w g)
    | inr room ↦ rw room
  ]

  -- `akl_vector_push` of an item to a valid vector that may still grow succeeds. It returns the
  -- index of the new item, keeps the invariant, and the vector then stands for the old items
  -- followed by the new one.
  pub push-items :
      {v : Vector} (d : List ℕ)
      → IsValid v
      → MayGrow v
      → length d ≡ v.av_msize
      → (w : Vector) × (push junk v d ≡ some (v.av_count, w))
        × IsValid w
        × (items w ≡ items v ++ (d ∷ []))
  unfolding push
  push-items {v} d w g e =
      let u = (reserve junk v).1 in
      let (valid, count, size, msize, ptr) = reserve-IsValid junk w g in
      let c : u.av_count ≡ suc v.av_count = omega arith in
      let (valid', holds) = write_last u d v.av_count valid c (e ∙ sym msize) in
      (
        record u { av_vector = write_bytes u.av_vector (v.av_count * u.av_msize) d },
        ground (arith, ptr, count, le-mul v.av_size v.av_msize w.wide),
        valid',
        holds ∙ ap (λ s. s ++ (d ∷ [])) (slots-reserve w g),
      )

-- `akl_vector_pop` of a valid vector with an item yields the address of its last item and leaves
-- the items before it; on an empty vector it yields NULL and changes nothing.
pub pop-items :
    {v : Vector}
    → IsValid v
    → ((v.av_count ≡ 0) × (pop v ≡ (none, v)))
      ⊎ ((p : ℕ) × ((pop v).0 ≡ some p)
          × IsValid (pop v).1
          × (items v ≡ items (pop v).1 ++ (slice v.av_vector p v.av_msize ∷ [])))
unfolding pop
pop-items {v} w = elim (Bool-cases (v.av_count == 0)) [
  | inl none_left ↦ inl (ground arith, rw none_left)
  | inr some_left ↦
      let slot = at-in_bounds (v.av_count - 1) w (ground arith) in
      inr (
        (v.av_count - 1) * v.av_msize,
        rw some_left slot.0,
        ground (arith, w),
        rw some_left (slots_of_ne_zero v.av_vector v.av_msize v.av_count (ground arith)),
      )
]

-- Item `i` of the sequence that a vector stands for is the item that `akl_vector_at` points to.
pub get_elem?-items :
    {v : Vector} (i : ℕ) → IsValid v → i < v.av_count → item_at v (at v i) ≡ get_elem? (items v) i
unfolding item_at
get_elem?-items {v} i w h =
    let slot = at-in_bounds i w (omega arith) in
    rw (slot.0, item_at) (sym (get_elem?-slots v.av_vector v.av_msize v.av_count i h))

-- What a search for the first item that `same` accepts has to return.
abbrev pub IsFirst : Vector → (Option (List ℕ) → Bool) → Option ℕ → Type 0
IsFirst v same none = (j : ℕ) → j < v.av_count → same (get_elem? (items v) j) ≡ false
IsFirst v same (some i) =
    (i < v.av_count)
    × (same (get_elem? (items v) i) ≡ true)
    × ((j : ℕ) → j < i → same (get_elem? (items v) j) ≡ false)

find_from-IsFirst :
    {v : Vector} (same : Option (List ℕ) → Bool) (n i : ℕ)
    → IsValid v
    → i + n ≡ v.av_count
    → ((j : ℕ) → j < i → same (get_elem? (items v) j) ≡ false)
    → IsFirst v same (find_from v same n i)
unfolding find_from
find_from-IsFirst {v} same zero i w e before = λ j l. before j (omega arith)
find_from-IsFirst {v} same (suc n) i w e before =
    rw (get_elem?-items i w (omega arith)) (elim (Bool-cases (same (get_elem? (items v) i))) [
      | inl hit ↦ rw hit (omega arith, hit, before)
      | inr miss ↦ rw miss (
          find_from-IsFirst same n (i + 1) w (omega arith) λ j l. elim (Bool-cases (j == i)) [
            | inl here ↦ let h : j ≡ i = ground arith in rw h miss
            | inr there ↦ before j (ground arith)
          ])
    ])

-- `akl_vector_find` on a valid vector stores the index of the first item that the comparison
-- accepts, and -1 exactly when it accepts none.
pub find-IsFirst :
    {v : Vector} (same : Option (List ℕ) → Bool) → IsValid v → IsFirst v same (find v same)
unfolding find
find-IsFirst {v} same w =
    find_from-IsFirst same v.av_count 0 w (omega arith) (λ j l. absurd (omega arith))
