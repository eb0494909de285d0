-- ===== src/Gc/Memory/Counted.antt =====
-- How the allocator counts the bytes that it asked for.
use native.Mathlib.Nat.{suc-mul}
use ak_lisp.Base.{ℕ, zero, suc, ◌+◌, ◌*◌, ◌%◌, ◌<◌, Option, none, some, ◌≡◌, ap, ◌∙◌, arith}
use ak_lisp.Gc.Memory.{
  try_again, MemCallbacks, Memory, gives, uint_range, on_nomem, asked, attempt, alloc, free,
}

module _ {W : Type 0} (fns : MemCallbacks W) where
  -- `k` attempts that fail, the handler asking for another each time and leaving the count as it is, lead
  -- from the first state outside to the second.
  pub data Fails (ask : W → Option ℕ × W) : ℕ → W → W → Type 0 where
    first : {w : W} → Fails ask 0 w w
    fails_once :
        {k : ℕ} {w w1 w2 w3 : W}
        → ask w ≡ (none, w1)
        → ((c : ℕ)
            → fns.mc_nomem_fn (record { outside = w1; ai_gc_malloc_size = c })
              ≡ (try_again, record { outside = w2; ai_gc_malloc_size = c }))
        → Fails ask k w2 w3
        → Fails ask (suc k) w w3

  attempt-Fails :
      (ask : W → Option ℕ × W) (size n k p g : ℕ) (w w2 w3 : W)
      → Fails ask k w w2
      → ask w2 ≡ (some p, w3)
      → k < n
      → attempt fns ask size n (record { outside = w; ai_gc_malloc_size = g })
        ≡ some (
            gives
              (some p)
              (record { outside = w3; ai_gc_malloc_size = (g + suc k * size) % uint_range }))
  attempt-Fails ask size zero k p g w w2 w3 f h l = absurd (omega arith)
  attempt-Fails ask size (suc n) zero p g w w2 w3 first h l =
      let count : (g + size) % uint_range ≡ (g + 1 * size) % uint_range = omega arith in
      ap (λ r. asked fns r ((g + size) % uint_range) (λ r. attempt fns ask size n r)) h
      ∙ ap (λ c. some (gives (some p) (record { outside = w3; ai_gc_malloc_size = c }))) count
  attempt-Fails ask size (suc n) (suc k) p g w w2 w3 (fails_once e1 e2 f) h l =
      let count : ((g + size) % uint_range + suc k * size) % uint_range
          ≡ (g + suc (suc k) * size) % uint_range =
        omega (arith, suc-mul (suc k) size) in
      ap (λ r. asked fns r ((g + size) % uint_range) (λ r. attempt fns ask size n r)) e1
      ∙ ap (λ r. on_nomem fns r (λ r. attempt fns ask size n r)) (e2 ((g + size) % uint_range))
      ∙ attempt-Fails ask size n k p ((g + size) % uint_range) _ w2 w3 f h (omega arith)
      ∙ ap (λ c. some (gives (some p) (record { outside = w3; ai_gc_malloc_size = c }))) count

  -- akl_alloc with an allocation that succeeds after `k` attempts that fail, for each of which the handler
  -- asks for another and leaves the count as it is, returns the pointer for all fuel above `k`; akl_free of it then leaves the count
  -- of the bytes `k` times the size too high, modulo the range of an unsigned int.
  pub free-alloc :
      (size n k p g : ℕ) (w w2 w3 : W)
      → Fails (λ u. fns.mc_malloc_fn size u) k w w2
      → fns.mc_malloc_fn size w2 ≡ (some p, w3)
      → k < n
      → (r : Memory W) × (alloc fns size n (record { outside = w; ai_gc_malloc_size = g })
          ≡ some (gives (some p) r))
        × ((free fns (some p) size r).ai_gc_malloc_size ≡ (g + k * size) % uint_range)
  unfolding alloc free
  free-alloc size n k p g w w2 w3 f h l = (
    record { outside = w3; ai_gc_malloc_size = (g + suc k * size) % uint_range },
    attempt-Fails (λ u. fns.mc_malloc_fn size u) size n k p g w w2 w3 f h l,
    omega (arith, suc-mul k size),
  )
