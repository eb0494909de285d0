-- ===== src/Gc/Tests.antt =====
-- Runs of the allocator, and its theorems at concrete pools.
use ak_lisp.Base.{
  get_or, length, ℕ, ◌<◌, ◌≡◌, refl, true, false, some, [], ◌∷◌, ◌++◌, arith, replicate,
}
use ak_lisp.Gc.Word.{Word, value, is_bit_set}
use ak_lisp.Gc.Pool.{Pool, in_use, have_free, find_free, pool_size}
use ak_lisp.Gc.Pool.FindFree.{find_free-in_use}
use ak_lisp.Gc.Pool.HaveFree.{below_two}
use ak_lisp.Gc.Pool.Bits.{IsMap}
use ak_lisp.Gc.Types.{Gc, Place, mark_value, other_object, type_of}
use ak_lisp.Gc.Alloc.{gc_malloc}
use ak_lisp.Gc.Alloc.Packed.{zero_map, Takes, gc_malloc-Takes}

abbrev full_word : Word
full_word = replicate 32 true

-- no slot in use; the first object is marked
abbrev empty_pool : Pool
empty_pool = record { count = 0; freemap = zero_map; marks = true ∷ replicate 63 false }

-- 56 slots in use: 0 to 31 and 40 to 63, as after a sweep
abbrev swept_pool : Pool
swept_pool = record {
  count = 56;
  freemap = full_word ∷ (replicate 8 false ++ replicate 24 true) ∷ [];
  marks = replicate 64 false;
}

empty_pool-IsMap : IsMap empty_pool
empty_pool-IsMap = record {
  words = refl;
  bits = λ k l. below_two (λ k. length (get_or empty_pool.freemap k [])) 32 refl refl k l;
}

abbrev start : Gc
start = record {
  use_gc = false;
  last_was_mark = false;
  types = record { gt_marker_fn = mark_value; pools = [] } ∷ [];
  objects = λ tid o. other_object;
}

find_free-in_use_example :
    (j : ℕ) × (find_free empty_pool ≡ some j) × (j < pool_size) × (in_use empty_pool j ≡ false)
unfolding have_free in_use value is_bit_set
find_free-in_use_example = find_free-in_use empty_pool-IsMap refl refl

gc_malloc-Takes_example :
    (place : Place) × (g' : Gc) × (gc_malloc 2 zero_map 0 start 0 ≡ some (place, g'))
    × (g'.use_gc ≡ false)
    × Takes [] place (type_of g' 0).pools
gc_malloc-Takes_example = gc_malloc-Takes 1 0 start 0 refl (omega arith) tt
