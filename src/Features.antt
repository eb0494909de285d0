-- ===== src/Features.antt =====
-- The features of the interpreter in src/util.c: bits of `ai_config`, switched by name, and the switches of
-- the collector in src/gc.c.
mod Switched
mod Tests
use ak_lisp.Base.{
  ℕ, zero, suc, ◌+◌, ◌%◌, ◌<◌, Bool, true, false, Option, none, some, List, [], ◌∷◌, ◌++◌, ◌≡◌,
  refl, ap, sym, ◌∙◌, arith, length, get_elem?, get_or, set, ◌==◌, if◌then◌else◌,
}
use ak_lisp.Gc.Word.{Word, set_bit, clear_bit, is_bit_set}

-- `struct akl_feature`, without the description. The bit is given by its number.
pub record Feature : Type 0 where
  pub af_name : List ℕ
  pub af_bit : ℕ

-- use-colors, interactive, use-gc, debug-instr, debug-stack
abbrev pub akl_features : List Feature
akl_features =
    record { af_name = 117 ∷ 115 ∷ 101 ∷ 45 ∷ 99 ∷ 111 ∷ 108 ∷ 111 ∷ 114 ∷ 115 ∷ []; af_bit = 0 }
    ∷ record {
      af_name = 105 ∷ 110 ∷ 116 ∷ 101 ∷ 114 ∷ 97 ∷ 99 ∷ 116 ∷ 105 ∷ 118 ∷ 101 ∷ [];
      af_bit = 2;
    }
    ∷ record { af_name = 117 ∷ 115 ∷ 101 ∷ 45 ∷ 103 ∷ 99 ∷ []; af_bit = 1 }
    ∷ record {
      af_name = 100 ∷ 101 ∷ 98 ∷ 117 ∷ 103 ∷ 45 ∷ 105 ∷ 110 ∷ 115 ∷ 116 ∷ 114 ∷ [];
      af_bit = 3;
    }
    ∷ record {
      af_name = 100 ∷ 101 ∷ 98 ∷ 117 ∷ 103 ∷ 45 ∷ 115 ∷ 116 ∷ 97 ∷ 99 ∷ 107 ∷ [];
      af_bit = 4;
    }
    ∷ []

-- The texts are equal, as `strcmp` says.
abbrev pub is_equal : List ℕ → List ℕ → Bool
is_equal [] [] = true
is_equal [] (y ∷ ys) = false
is_equal (x ∷ xs) [] = false
is_equal (x ∷ xs) (y ∷ ys) = if x == y then is_equal xs ys else false

abbrev pub switch : Bool → Word → ℕ → Word
switch true w bit = set_bit w bit
switch false w bit = clear_bit w bit

-- The loop over the features.
abbrev pub search_from : List Feature → List ℕ → Bool → Word → Bool × Word
search_from [] feature to w = (false, w)
search_from (f ∷ fs) feature to w =
    if is_equal f.af_name feature then (true, switch to w f.af_bit) else search_from fs feature to w

unfoldable pub set_feature_to : List ℕ → Bool → Word → Bool × Word
set_feature_to [] to w = (false, w)
set_feature_to (ch ∷ feature) to w = search_from akl_features (ch ∷ feature) to w

-- The text behind a `no-` at its start.
abbrev pub without_no : List ℕ → Option (List ℕ)
without_no [] = none
without_no (a ∷ []) = none
without_no (a ∷ b ∷ []) = none
without_no (a ∷ b ∷ c ∷ feature) =
    if a == 110 then (if b == 111 then (if c == 45 then some feature else none) else none) else none

abbrev pub set_feature_of : List ℕ → Option (List ℕ) → Word → Bool × Word
set_feature_of feature none w = set_feature_to feature true w
set_feature_of feature (some rest) w = set_feature_to rest false w

unfoldable pub set_feature : List ℕ → Word → Bool × Word
set_feature feature w = set_feature_of feature (without_no feature) w

-- `AKL_CFG_USE_GC` is bit 1.
pub gc_enable : Word → Word
gc_enable w = set_bit w 1

pub gc_disable : Word → Word
gc_disable w = clear_bit w 1

-- `AKL_IS_FEATURE_ON`
abbrev pub is_feature_on : Word → Feature → Bool
is_feature_on w f = is_bit_set w f.af_bit
