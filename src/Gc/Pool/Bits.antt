-- ===== src/Gc/Pool/Bits.antt =====
-- The bit map of a pool as a set of slots: what one operation does to each of the 64.
use ak_lisp.Base.{
  ℕ, ◌/◌, ◌%◌, ◌<◌, ◌≡◌, refl, Bool, true, false, List, [], arith, length, get_or, set, get_or-set,
  length-set, ◌==◌, if◌then◌else◌, Bool-cases, inl, inr, ◌∙◌,
}
use ak_lisp.Gc.Word.{Word, bits_in_uint, set_bit, clear_bit, is_bit_set}
use ak_lisp.Gc.Pool.{Pool, in_use, use_slot, clear_use, pool_size, word_of, map_size}

-- Two words of 32 bits.
pub record IsMap (p : Pool) : Type 0 where
  pub words : length p.freemap ≡ map_size
  pub bits : (k : ℕ) → k < map_size → length (get_or p.freemap k []) ≡ bits_in_uint

-- the map after `v` was written to the bit of slot `i`
abbrev write_bit : Pool → ℕ → Bool → List Word
write_bit p i v = set p.freemap (i / bits_in_uint) (set (word_of p i) (i % bits_in_uint) v)

module _ {p : Pool} (m : IsMap p) where
  -- Each slot has a bit of its own.
  get_or-write_bit :
      (i j : ℕ) (v : Bool)
      → i < pool_size
      → j < pool_size
      → get_or (get_or (write_bit p i v) (j / bits_in_uint) []) (j % bits_in_uint) false
        ≡ (if j == i then v else get_or (word_of p j) (j % bits_in_uint) false)
  get_or-write_bit i j v h k =
      let words = m.words in
      let len = m.bits (i / bits_in_uint) (omega arith) in
      rw
        (get_or-set p.freemap (i / bits_in_uint) (j / bits_in_uint)
          (set (word_of p i) (i % bits_in_uint) v) [] (omega arith))
        (elim (Bool-cases (j / bits_in_uint == i / bits_in_uint)) [
          | inl same ↦
              let e : j / bits_in_uint ≡ i / bits_in_uint = ground arith in
              rw (same, e)
                (get_or-set (word_of p i) (i % bits_in_uint) (j % bits_in_uint) v false
                    (omega arith)
                  ∙ ground arith)
          | inr apart ↦ rw apart (ground arith)
        ])

  write_bit-IsMap :
      (i : ℕ) (v : Bool) (q : Pool) → i < pool_size → q.freemap ≡ write_bit p i v → IsMap q
  write_bit-IsMap i v q h e = record {
    words = rw e (length-set p.freemap (i / bits_in_uint) _ ∙ m.words);
    bits = λ k l. rw e (
        ground (
          arith,
          m.words,
          m.bits k,
          m.bits (i / bits_in_uint),
          get_or-set p.freemap (i / bits_in_uint) k (set (word_of p i) (i % bits_in_uint) v) [],
          length-set (word_of p i) (i % bits_in_uint) v,
        ));
  }

  -- `akl_gc_pool_use` takes the slot and leaves every other as it is.
  pub in_use-use_slot :
      (i j : ℕ)
      → i < pool_size
      → j < pool_size
      → in_use (use_slot p i) j ≡ (if j == i then true else in_use p j)
  unfolding in_use use_slot set_bit is_bit_set
  in_use-use_slot i j h k = get_or-write_bit i j true h k

  -- `akl_gc_pool_clear_use` frees the slot and leaves every other as it is.
  pub in_use-clear_use :
      (i j : ℕ)
      → i < pool_size
      → j < pool_size
      → in_use (clear_use p i) j ≡ (if j == i then false else in_use p j)
  unfolding in_use clear_use clear_bit is_bit_set
  in_use-clear_use i j h k = get_or-write_bit i j false h k

  pub use_slot-IsMap : (i : ℕ) → i < pool_size → IsMap (use_slot p i)
  unfolding use_slot set_bit
  use_slot-IsMap i h = write_bit-IsMap i true _ h refl

  pub clear_use-IsMap : (i : ℕ) → i < pool_size → IsMap (clear_use p i)
  unfolding clear_use clear_bit
  clear_use-IsMap i h = write_bit-IsMap i false _ h refl
