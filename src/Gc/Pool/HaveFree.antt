-- ===== src/Gc/Pool/HaveFree.antt =====
-- `akl_gc_pool_have_free` decides whether a slot of the pool is free.
use ak_lisp.Base.{
  ℕ, zero, suc, ◌+◌, ◌/◌, ◌%◌, ◌^◌, ◌<◌, ◌≡◌, ap, ◌∙◌, ◌&&◌, not, true, false, [], arith, length,
  get_or, ◌==◌, ◌*◌, ◌↔◌,
}
use ak_lisp.Gc.Word.{
  Word, value, uint_max, AllSet, is_bit_set, full_of_AllSet, bits_in_uint, AllSet-of_full,
}
use ak_lisp.Gc.Pool.{Pool, in_use, have_free, any_not_full, pool_size, map_size}
use ak_lisp.Gc.Pool.Bits.{IsMap}
use ak_lisp.Gc.Pool.FindFree.{two_words}

value_full : (w : Word) → length w ≡ bits_in_uint → AllSet w → value w ≡ uint_max
value_full w l h =
    let e : 2 ^ length w ≡ 2 ^ bits_in_uint = ap (λ (n : ℕ). 2 ^ n) l in
    omega (arith, full_of_AllSet w h)

AllSet-of_value : (w : Word) → length w ≡ bits_in_uint → value w ≡ uint_max → AllSet w
AllSet-of_value w l h =
    let e : 2 ^ length w ≡ 2 ^ bits_in_uint = ap (λ (n : ℕ). 2 ^ n) l in
    AllSet-of_full w (omega arith)

pub below_two : (f : ℕ → ℕ) (n : ℕ) → f 0 ≡ n → f 1 ≡ n → (k : ℕ) → k < map_size → f k ≡ n
below_two f n a b zero l = a
below_two f n a b (suc zero) l = b
below_two f n a b (suc (suc k)) l = absurd (omega arith)

module _ {p : Pool} (m : IsMap p) where
  have_free_words :
      have_free p
      ≡ not (
          (value (get_or p.freemap 0 []) == uint_max)
          && (value (get_or p.freemap 1 []) == uint_max))
  unfolding have_free any_not_full
  have_free_words = ap any_not_full (two_words p.freemap m.words) ∙ ground arith

  -- Each bit of word `k` is the slot `32 * k + i`.
  AllSet-of_in_use :
      ((j : ℕ) → j < pool_size → in_use p j ≡ true)
      → (k : ℕ) → k < map_size
      → AllSet (get_or p.freemap k [])
  unfolding in_use is_bit_set
  AllSet-of_in_use h k l i b =
      let len = m.bits k l in
      let d : (32 * k + i) / bits_in_uint ≡ k = omega arith in
      let r : (32 * k + i) % bits_in_uint ≡ i = omega arith in
      rw (d, r) at (h (32 * k + i) (omega arith))

  in_use_of_AllSet :
      ((k : ℕ) → k < map_size → AllSet (get_or p.freemap k []))
      → (j : ℕ) → j < pool_size
      → in_use p j ≡ true
  unfolding in_use is_bit_set
  in_use_of_AllSet h j l =
      h (j / bits_in_uint) (omega arith) (j % bits_in_uint)
        (omega (arith, m.bits (j / bits_in_uint) (omega arith)))

  -- A pool answers that it has no free slot exactly when all of its 64 slots are in use.
  pub have_free-eq_false : (have_free p ≡ false) ↔ ((j : ℕ) → j < pool_size → in_use p j ≡ true)
  have_free-eq_false = (
    λ h.
        let words = have_free_words in
        let full : (k : ℕ) → k < map_size → AllSet (get_or p.freemap k []) = λ k l.
          AllSet-of_value (get_or p.freemap k []) (m.bits k l) (
            below_two (λ k. value (get_or p.freemap k [])) uint_max (ground arith) (ground arith) k
              l) in
        in_use_of_AllSet full,
    λ h.
        have_free_words
        ∙ ground (
          arith,
          value_full (get_or p.freemap 0 []) (m.bits 0 (omega arith))
              (AllSet-of_in_use h 0 (omega arith)),
          value_full (get_or p.freemap 1 []) (m.bits 1 (omega arith))
              (AllSet-of_in_use h 1 (omega arith)),
        ),
  )
