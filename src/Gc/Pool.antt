-- ===== src/Gc/Pool.antt =====
-- `struct akl_gc_pool` of src/aklisp.h and the functions of src/gc.c on one pool.
pub mod Bits
pub mod FindFree
pub mod HaveFree
use ak_lisp.Base.{
  ℕ, zero, suc, ◌+◌, ◌-◌, ◌/◌, ◌%◌, ◌^◌, Bool, true, false, not, ◌&&◌, Option, none, some, List, [],
  ◌∷◌, get_or, set, ◌==◌, ltb, if◌then◌else◌, replicate, drop, ◌++◌,
}
use ak_lisp.Gc.Word.{Word, bits_in_uint, uint_max, value, set_bit, clear_bit, is_bit_set}
use ak_lisp.Vector.{u32}

abbrev pub pool_size : ℕ
pool_size = 64

-- the length of `gp_freemap`
abbrev pub map_size : ℕ
map_size = pool_size / bits_in_uint

-- The slots are not stored: `count` is `gp_pool.av_count`, and `marks` holds the `gc_mark` of
-- the object in each slot.
pub record Pool : Type 0 where
  pub count : ℕ
  pub freemap : List Word
  pub marks : List Bool

-- The map has a bit for each of the 64 slots. ASSERT_INDEX lets an index below 2048 pass; from 64 on
-- BIT_INDEX is behind the end of the map. `in_use` and `clear_use` are what the functions do for an
-- index below 64, which is what all their callers pass.
-- `BIT_INDEX(p->gp_freemap, ind)`
abbrev pub word_of : Pool → ℕ → Word
word_of p ind = get_or p.freemap (ind / bits_in_uint) []

unfoldable pub in_use : Pool → ℕ → Bool
in_use p ind = is_bit_set (word_of p ind) ind

-- What `akl_gc_pool_use` writes for an index in the map.
unfoldable pub use_slot : Pool → ℕ → Pool
use_slot p ind = record p {
  count = u32 (p.count + 1);
  freemap = set p.freemap (ind / bits_in_uint) (set_bit (word_of p ind) ind);
}

-- `akl_gc_pool_use`: `none` is a fault, the failed assertion for an index from 2048 on, and a write
-- behind the end of the map for an index from 64 to 2047.
unfoldable pub pool_use : Pool → ℕ → Option Pool
pool_use p ind = if ltb ind pool_size then some (use_slot p ind) else none

unfoldable pub clear_use : Pool → ℕ → Pool
clear_use p ind = record p {
  count = u32 (p.count + 2 ^ 32 - 1);
  freemap = set p.freemap (ind / bits_in_uint) (clear_bit (word_of p ind) ind);
}

-- `UINT_MAX` in no word of the map
pub any_not_full : List Word → Bool
any_not_full [] = false
any_not_full (w ∷ ws) = if value w == uint_max then any_not_full ws else true

unfoldable pub have_free : Pool → Bool
unfolding any_not_full
have_free p = any_not_full p.freemap

-- The inner loop of the search: the first `j` from `j` on, `n` rounds left, whose bit is not set.
pub first_clear : Word → ℕ → ℕ → Option ℕ
first_clear w zero j = none
first_clear w (suc n) j =
    let rest = first_clear w n (j + 1) in if is_bit_set w j then rest else some j

-- The outer loop. The index that it returns is the one in the word.
pub scan_map : List Word → Option ℕ
unfolding first_clear
scan_map [] = none
scan_map (w ∷ ws) =
    if value w == uint_max
    then scan_map ws
    else elim (first_clear w bits_in_uint 0) [ none ↦ scan_map ws | some j ↦ some j ]

-- `none` is -1.
unfoldable pub find_free : Pool → Option ℕ
unfolding scan_map
find_free p =
    if ltb p.count pool_size && not (in_use p p.count) then some p.count else scan_map p.freemap

sum_words : List Word → ℕ → ℕ
sum_words [] s = s
sum_words (w ∷ ws) s = sum_words ws (u32 (s + value w))

-- The sum is kept in an `int`, so it wraps.
unfoldable pub is_empty : Pool → Bool
unfolding sum_words
is_empty p = sum_words p.freemap 0 == 0

-- `memset` of two bytes: it clears the low 16 bits of the first word.
abbrev pub cleared_bits : ℕ
cleared_bits = 16

clear_low : List Word → List Word
clear_low [] = []
clear_low (w ∷ ws) = (replicate cleared_bits false ++ drop cleared_bits w) ∷ ws

-- The pool of `akl_gc_pool_create`: `fresh` is what the map's memory holds before.
unfoldable pub create : List Word → Pool
unfolding clear_low
create fresh = record { count = 0; freemap = clear_low fresh; marks = replicate pool_size false }
