-- ===== src/Errors/Tests.antt =====
-- The same error raised twice.
use ak_lisp.Base.{
  ℕ, zero, suc, Bool, true, false, some, List, [], ◌∷◌, ◌≡◌, refl, ap, ◌∙◌, ◌&&◌, ◌==◌, arith,
}
use ak_lisp.Errors.{LexInfo, Error, error, raise_error, Once, raise_error-Once}

abbrev same_text : List ℕ → List ℕ → Bool
same_text [] [] = true
same_text [] (b ∷ t) = false
same_text (a ∷ s) [] = false
same_text (a ∷ s) (b ∷ t) = (a == b) && same_text s t

same_text_self : (s : List ℕ) → same_text s s ≡ true
same_text_self [] = refl
same_text_self (a ∷ s) =
    let first : (a == a) ≡ true = ground arith in
    ap (λ b. b && same_text s s) first ∙ same_text_self s

abbrev place : LexInfo
place = record { li_name = some (97 ∷ []); li_line = 3; li_count = 5 }

abbrev undefined : Error
undefined = record { err_info = some place; err_type = error; err_msg = 98 ∷ [] }

one-Once : Once same_text (undefined ∷ [])
one-Once zero zero e at1 at2 h = refl
one-Once zero (suc j) e at1 at2 h = ground arith
one-Once (suc i) zero e at1 at2 h = ground arith
one-Once (suc i) (suc j) e at1 at2 h = ground arith

abbrev other : Error
other = record { err_info = some place; err_type = error; err_msg = 99 ∷ [] }

raise_error-Once_example : ◌≡◌ {A = ℕ} 1 1
unfolding raise_error
raise_error-Once_example =
    raise_error-Once same_text same_text_self other (undefined ∷ []) one-Once 1 1 undefined refl
      refl (place, 97 ∷ [], refl, refl)
