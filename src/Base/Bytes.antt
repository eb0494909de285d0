-- ===== src/Base/Bytes.antt =====
-- Memory as a list of bytes: reading and writing a run of bytes, and resizing a block.
use Prim.Native.Nat.{ℕ, zero, suc, ◌+◌, ◌-◌, ◌≤◌}
use mathlib.Core.Path.{◌≡◌, refl, ap}
use mathlib.Core.List.{List, [], ◌∷◌, ◌++◌}
use native.Mathlib.Omega.{arith}
use ak_lisp.Base.Seq.{length, take, drop, replicate}
use ak_lisp.Base.Seq.{length-append, length-take, length-drop, length-replicate}

-- `m` bytes from offset `k` on
abbrev pub slice {ℓ} : {A : Type ℓ} → List A → ℕ → ℕ → List A
slice xs k m = take m (drop k xs)

-- `memcpy` of `d` to offset `k`
unfoldable pub write_bytes {ℓ} : {A : Type ℓ} → List A → ℕ → List A → List A
write_bytes xs k d = take k xs ++ (d ++ drop (k + length d) xs)

-- `realloc` to `n` bytes: `junk` stands in each byte that is added
unfoldable pub resize {ℓ} : {A : Type ℓ} → A → List A → ℕ → List A
resize junk xs n = take n xs ++ replicate (n - length xs) junk

module _ {ℓ} {A : Type ℓ} where
  take-append-take :
      (m off : ℕ) (xs ys : List A)
      → m ≤ off
      → off ≤ length xs
      → take m (take off xs ++ ys) ≡ take m xs
  take-append-take zero off xs ys h k = refl
  take-append-take (suc m) zero xs ys h k = absurd (omega arith)
  take-append-take (suc m) (suc off) [] ys h k = absurd (omega arith)
  take-append-take (suc m) (suc off) (x ∷ xs) ys h k =
      ap (λ r. x ∷ r) (take-append-take m off xs ys (omega arith) (omega arith))

  pub slice-take-append :
      (k m off : ℕ) (xs ys : List A)
      → k + m ≤ off
      → off ≤ length xs
      → slice (take off xs ++ ys) k m ≡ slice xs k m
  slice-take-append zero m off xs ys h k = take-append-take m off xs ys (omega arith) k
  slice-take-append (suc k) m zero xs ys h l = absurd (omega arith)
  slice-take-append (suc k) m (suc off) [] ys h l = absurd (omega arith)
  slice-take-append (suc k) m (suc off) (x ∷ xs) ys h l =
      slice-take-append k m off xs ys (omega arith) (omega arith)

  take-append_self : (d ys : List A) → take (length d) (d ++ ys) ≡ d
  take-append_self [] ys = refl
  take-append_self (x ∷ d) ys = ap (λ r. x ∷ r) (take-append_self d ys)

  drop-take-append :
      (off : ℕ) (xs ys : List A) → off ≤ length xs → drop off (take off xs ++ ys) ≡ ys
  drop-take-append zero xs ys h = refl
  drop-take-append (suc off) [] ys h = absurd (omega arith)
  drop-take-append (suc off) (x ∷ xs) ys h = drop-take-append off xs ys (omega arith)

  pub slice-write_bytes_self :
      (xs : List A) (k : ℕ) (d : List A)
      → k ≤ length xs
      → slice (write_bytes xs k d) k (length d) ≡ d
  unfolding write_bytes
  slice-write_bytes_self xs k d h =
      rw (drop-take-append k xs (d ++ drop (k + length d) xs) h) (take-append_self d _)

  pub slice-write_bytes_below :
      (xs : List A) (k i m : ℕ) (d : List A)
      → i + m ≤ k
      → k ≤ length xs
      → slice (write_bytes xs k d) i m ≡ slice xs i m
  unfolding write_bytes
  slice-write_bytes_below xs k i m d h l = slice-take-append i m k xs _ h l

  pub length-write_bytes :
      (xs : List A) (k : ℕ) (d : List A)
      → k + length d ≤ length xs
      → length (write_bytes xs k d) ≡ length xs
  unfolding write_bytes
  length-write_bytes xs k d h = omega (
    arith,
    length-append (take k xs) (d ++ drop (k + length d) xs),
    length-append d (drop (k + length d) xs),
    length-take k xs,
    length-drop (k + length d) xs,
  )

  pub length-resize :
      (junk : A) (xs : List A) (n : ℕ) → length xs ≤ n → length (resize junk xs n) ≡ n
  unfolding resize
  length-resize junk xs n h = omega (
    arith,
    length-append (take n xs) (replicate (n - length xs) junk),
    length-take n xs,
    length-replicate (n - length xs) junk,
  )

  take_of_le : (n : ℕ) (xs : List A) → length xs ≤ n → take n xs ≡ xs
  take_of_le zero [] h = refl
  take_of_le zero (x ∷ xs) h = absurd (omega arith)
  take_of_le (suc n) [] h = refl
  take_of_le (suc n) (x ∷ xs) h = ap (λ r. x ∷ r) (take_of_le n xs (omega arith))

  pub slice-resize :
      (junk : A) (xs : List A) (n i m : ℕ)
      → length xs ≤ n
      → i + m ≤ length xs
      → slice (resize junk xs n) i m ≡ slice xs i m
  unfolding resize
  slice-resize junk xs n i m h l = rw (take_of_le n xs h) (
      rw (take_of_le (length xs) xs (omega arith)) at
        (slice-take-append i m (length xs) xs (replicate (n - length xs) junk) l (omega arith)))
