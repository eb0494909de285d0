-- ===== src/Gc/Memory/Tests.antt =====
-- Two attempts fail, the third gives memory.
use ak_lisp.Base.{ℕ, zero, suc, Option, none, some, ◌≡◌, refl, arith}
use ak_lisp.Gc.Memory.{try_again, MemCallbacks, Memory, gives, alloc, free}
use ak_lisp.Gc.Memory.Counted.{first, fails_once, free-alloc}

-- What is outside is the number of the attempts that will fail.
abbrev scarce : ℕ → Option ℕ × ℕ
scarce zero = (some 64, 0)
scarce (suc w) = (none, w)

abbrev callbacks : MemCallbacks ℕ
callbacks = record {
  mc_malloc_fn = λ size w. scarce w;
  mc_calloc_fn = λ nmemb size w. scarce w;
  mc_realloc_fn = λ p size w. scarce w;
  mc_free_fn = λ p w. w;
  mc_nomem_fn = λ w. (try_again, w);
}

free-alloc_example :
    (r : Memory ℕ) × (alloc callbacks 100 3 (record { outside = 2; ai_gc_malloc_size = 5 })
      ≡ some (gives (some 64) r))
    × ((free callbacks (some 64) 100 r).ai_gc_malloc_size ≡ 205)
free-alloc_example =
    free-alloc callbacks 100 3 2 64 5 2 0 0
      (fails_once refl (λ c. refl) (fails_once refl (λ c. refl) first)) refl (omega arith)
