-- ===== src/Features/Switched.antt =====
-- A feature is switched by its name, and no other with it.
use mathlib.Core.Path.{subst}
use ak_lisp.Base.{
  some_inj, ℕ, zero, suc, ◌%◌, ◌<◌, true, false, some, List, [], ◌∷◌, ◌++◌, ◌≡◌, refl, ap, ◌∙◌,
  arith, length, get_elem?, get_or-set, ◌==◌, if◌then◌else◌,
}
use ak_lisp.Gc.Word.{Word, set_bit, clear_bit, is_bit_set}
use ak_lisp.Features.{Feature, akl_features, set_feature, set_feature_to, is_feature_on}

abbrev pub no_dash : List ℕ
no_dash = 110 ∷ 111 ∷ 45 ∷ []

-- What the name of a feature does, and its bit.
Switches : Word → Feature → Type 0
Switches w f =
    (set_feature f.af_name w ≡ (true, set_bit w f.af_bit))
    × (set_feature (no_dash ++ f.af_name) w ≡ (true, clear_bit w f.af_bit))
    × (f.af_bit < 32)

akl_features-Switches :
    (i : ℕ) (f : Feature) (w : Word) → get_elem? akl_features i ≡ some f → Switches w f
unfolding Switches set_feature set_feature_to
akl_features-Switches zero f w h = subst (Switches w) (some_inj h) (refl, refl, omega arith)
akl_features-Switches (suc zero) f w h = subst (Switches w) (some_inj h) (refl, refl, omega arith)
akl_features-Switches (suc (suc zero)) f w h =
    subst (Switches w) (some_inj h) (refl, refl, omega arith)
akl_features-Switches (suc (suc (suc zero))) f w h =
    subst (Switches w) (some_inj h) (refl, refl, omega arith)
akl_features-Switches (suc (suc (suc (suc zero)))) f w h =
    subst (Switches w) (some_inj h) (refl, refl, omega arith)
akl_features-Switches (suc (suc (suc (suc (suc i))))) f w h = cc h

is_bit_set-set_bit :
    (w : Word) (a b : ℕ)
    → length w ≡ 32
    → a < 32
    → b < 32
    → is_bit_set (set_bit w a) b ≡ (if b == a then true else is_bit_set w b)
unfolding is_bit_set set_bit
is_bit_set-set_bit w a b size l r =
    let e : a % 32 ≡ a = omega arith in
    let f : b % 32 ≡ b = omega arith in rw (e, f) (get_or-set w a b true false (omega arith))

is_bit_set-clear_bit :
    (w : Word) (a b : ℕ)
    → length w ≡ 32
    → a < 32
    → b < 32
    → is_bit_set (clear_bit w a) b ≡ (if b == a then false else is_bit_set w b)
unfolding is_bit_set clear_bit
is_bit_set-clear_bit w a b size l r =
    let e : a % 32 ≡ a = omega arith in
    let f : b % 32 ≡ b = omega arith in rw (e, f) (get_or-set w a b false false (omega arith))

-- The name of a feature of the table switches it on, the name behind `no-` switches it off; both say that
-- they did, and leave the features with another bit as they were. The configuration has 32 bits.
pub set_feature-is_feature_on :
    (i j : ℕ) (f g : Feature) (w : Word)
    → get_elem? akl_features i ≡ some f
    → get_elem? akl_features j ≡ some g
    → length w ≡ 32
    → ((set_feature f.af_name w).0 ≡ true)
      × (is_feature_on ((set_feature f.af_name w).1) g
          ≡ (if g.af_bit == f.af_bit then true else is_feature_on w g))
      × ((set_feature (no_dash ++ f.af_name) w).0 ≡ true)
      × (is_feature_on ((set_feature (no_dash ++ f.af_name) w).1) g
          ≡ (if g.af_bit == f.af_bit then false else is_feature_on w g))
unfolding Switches
set_feature-is_feature_on i j f g w h k size =
    let (on, off, small) = akl_features-Switches i f w h in
    let (on2, off2, small2) = akl_features-Switches j g w k in
    (
      ap (λ r. r.0) on,
      ap (λ r. is_feature_on (r.1) g) on ∙ is_bit_set-set_bit w f.af_bit g.af_bit size small small2,
      ap (λ r. r.0) off,
      ap (λ r. is_feature_on (r.1) g) off
          ∙ is_bit_set-clear_bit w f.af_bit g.af_bit size small small2,
    )
