-- ===== src/Gc/Memory.antt =====
-- `akl_alloc`, `akl_calloc`, `akl_realloc` and `akl_free` of src/gc.c over the callbacks of
-- `struct akl_mem_callbacks`, which are functions on what is outside of the program.
pub mod Counted
mod Tests
use ak_lisp.Base.{ℕ, zero, suc, ◌+◌, ◌-◌, ◌*◌, ◌%◌, ◌^◌, Option, none, some, ltb, if◌then◌else◌}

-- `enum AKL_NOMEM_ACTION`
pub data Nomem : Type 0 where
  terminate try_again ret_null : Nomem

-- What is outside, and `ai_gc_malloc_size`, an `unsigned int`.
pub record Memory (W : Type 0) : Type 0 where
  pub outside : W
  pub ai_gc_malloc_size : ℕ

-- The callbacks; the handler of a want of memory gets the whole state. A pointer is a number, NULL is `none`.
pub record MemCallbacks (W : Type 0) : Type 0 where
  pub mc_malloc_fn : ℕ → W → Option ℕ × W
  pub mc_calloc_fn : ℕ → ℕ → W → Option ℕ × W
  pub mc_realloc_fn : Option ℕ → ℕ → W → Option ℕ × W
  pub mc_free_fn : Option ℕ → W → W
  pub mc_nomem_fn : Memory W → Nomem × Memory W

-- A pointer, or the end of the program.
pub data Result (W : Type 0) : Type 0 where
  gives : Option ℕ → Memory W → Result W
  exits : Memory W → Result W

abbrev pub uint_range : ℕ
uint_range = 4_294_967_296

module _ {W : Type 0} (fns : MemCallbacks W) where
  -- What the handler of a want of memory leads to; `again` is the recursive call.
  abbrev pub on_nomem : Nomem × Memory W → (Memory W → Option (Result W)) → Option (Result W)
  on_nomem (terminate, m) again = some (exits m)
  on_nomem (try_again, m) again = again m
  on_nomem (ret_null, m) again = some (gives none m)

  abbrev pub asked : Option ℕ × W → ℕ → (Memory W → Option (Result W)) → Option (Result W)
  asked (some p, w) count again =
      some (gives (some p) (record { outside = w; ai_gc_malloc_size = count }))
  asked (none, w) count again =
      on_nomem (fns.mc_nomem_fn (record { outside = w; ai_gc_malloc_size = count })) again

  -- `n` is the fuel, one unit for each attempt.
  abbrev pub attempt : (W → Option ℕ × W) → (size : ℕ) → (n : ℕ) → Memory W → Option (Result W)
  attempt ask size zero m = none
  attempt ask size (suc n) m =
      asked (ask m.outside) ((m.ai_gc_malloc_size + size) % uint_range) (λ r. attempt ask size n r)

  unfoldable pub alloc : (size n : ℕ) → Memory W → Option (Result W)
  alloc size n m = attempt (λ w. fns.mc_malloc_fn size w) size n m

  unfoldable pub calloc : (nmemb size n : ℕ) → Memory W → Option (Result W)
  calloc nmemb size n m = attempt (λ w. fns.mc_calloc_fn nmemb size w) (size * nmemb) n m

  -- The old size is not taken off the count.
  unfoldable pub realloc : (ptr : Option ℕ) → (size n : ℕ) → Memory W → Option (Result W)
  realloc ptr size n m = attempt (λ w. fns.mc_realloc_fn ptr size w) size n m

  unfoldable pub free : (ptr : Option ℕ) → (size : ℕ) → Memory W → Memory W
  free ptr size m = record {
    outside = fns.mc_free_fn ptr m.outside;
    ai_gc_malloc_size = (m.ai_gc_malloc_size + uint_range - size % uint_range) % uint_range;
  }
