-- ===== src/Features/Tests.antt =====
-- Colors off, the collector as it was.
use ak_lisp.Base.{true, [], ◌∷◌, ◌++◌, ◌≡◌, refl, replicate}
use ak_lisp.Gc.Word.{Word}
use ak_lisp.Features.{Feature, set_feature, is_feature_on}
use ak_lisp.Features.Switched.{no_dash, set_feature-is_feature_on}

abbrev config : Word
config = replicate 32 true

abbrev use_colors : Feature
use_colors = record {
  af_name = 117 ∷ 115 ∷ 101 ∷ 45 ∷ 99 ∷ 111 ∷ 108 ∷ 111 ∷ 114 ∷ 115 ∷ [];
  af_bit = 0;
}

abbrev use_gc : Feature
use_gc = record { af_name = 117 ∷ 115 ∷ 101 ∷ 45 ∷ 103 ∷ 99 ∷ []; af_bit = 1 }

set_feature-is_feature_on_example :
    ((set_feature use_colors.af_name config).0 ≡ true)
    × (is_feature_on ((set_feature use_colors.af_name config).1) use_gc
        ≡ is_feature_on config use_gc)
    × ((set_feature (no_dash ++ use_colors.af_name) config).0 ≡ true)
    × (is_feature_on ((set_feature (no_dash ++ use_colors.af_name) config).1) use_gc
        ≡ is_feature_on config use_gc)
set_feature-is_feature_on_example =
    set_feature-is_feature_on 0 2 use_colors use_gc config refl refl refl
