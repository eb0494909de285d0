-- ===== src/Gc/Word.antt =====
-- An `unsigned int` of a bit map as its 32 bits, lowest first, and the macros of src/gc.c on it.
use native.Mathlib.Nat.{pow-suc}
use ak_lisp.Base.{
  ℕ, zero, suc, ◌+◌, ◌-◌, ◌*◌, ◌%◌, ◌^◌, ◌<◌, ◌≡◌, refl, Bool, true, false, List, [], ◌∷◌, arith,
  length, get_or, set, if◌then◌else◌,
}

abbrev pub Word : Type 0
Word = List Bool

abbrev pub bits_in_uint : ℕ
bits_in_uint = 32

abbrev pub uint_max : ℕ
uint_max = 2 ^ 32 - 1

-- the number that the bits stand for
unfoldable pub value : Word → ℕ
value [] = 0
value (b ∷ w) = (if b then 1 else 0) + 2 * value w

-- A shift count of 32 or more is taken modulo 32, as the x86 instruction does.
unfoldable pub set_bit : Word → ℕ → Word
set_bit w n = set w (n % bits_in_uint) true

unfoldable pub clear_bit : Word → ℕ → Word
clear_bit w n = set w (n % bits_in_uint) false

unfoldable pub is_bit_set : Word → ℕ → Bool
is_bit_set w n = get_or w (n % bits_in_uint) false

abbrev pub AllSet : Word → Type 0
AllSet w = (i : ℕ) → i < length w → get_or w i false ≡ true

pub value-lt : (w : Word) → value w < 2 ^ length w
unfolding value
value-lt [] = omega arith
value-lt (b ∷ w) = ground (arith, value-lt w, pow-suc 2 (length w))

-- A word equals UINT_MAX exactly when each of its bits is set.
pub full_of_AllSet : (w : Word) → AllSet w → value w + 1 ≡ 2 ^ length w
unfolding value
full_of_AllSet [] h = refl
full_of_AllSet (b ∷ w) h = ground (
  arith,
  full_of_AllSet w (λ i l. h (suc i) (omega arith)),
  pow-suc 2 (length w),
  h 0 (omega arith),
)

pub AllSet-of_full : (w : Word) → value w + 1 ≡ 2 ^ length w → AllSet w
unfolding value
AllSet-of_full [] h i l = absurd (omega arith)
AllSet-of_full (b ∷ w) h zero l = ground (arith, value-lt w, pow-suc 2 (length w))
AllSet-of_full (b ∷ w) h (suc i) l =
    AllSet-of_full w (ground (arith, value-lt w, pow-suc 2 (length w))) i (omega arith)
