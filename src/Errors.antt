-- ===== src/Errors.antt =====
-- The list of errors in src/aklisp.c. A text is its bytes without the NUL; the message is the text
-- that `vasprintf` makes. `strcmp` gives 0 where `same_text` is true.
mod Tests
use mathlib.Core.Path.{subst}
use ak_lisp.Base.{
  ℕ, zero, suc, Bool, true, false, ◌&&◌, Option, none, some, List, [], ◌∷◌, ◌≡◌, ◌≢◌, ◌⊎◌, inl, inr,
  refl, ap, sym, ◌∙◌, arith, Bool-cases, get_elem?, ◌==◌, if◌then◌else◌, ◌↔◌,
}

pub record LexInfo : Type 0 where
  pub li_name : Option (List ℕ)
  pub li_line : ℕ
  pub li_count : ℕ

pub data AlertType : Type 0 where
  error warning : AlertType

pub record Error : Type 0 where
  pub err_info : Option LexInfo
  pub err_type : AlertType
  pub err_msg : List ℕ

true-ne-false : true ≢ false
true-ne-false = λ e. ground arith

module _ (same_text : List ℕ → List ℕ → Bool) where
  abbrev same_name : Option (List ℕ) → Option (List ℕ) → Bool
  same_name none n = false
  same_name (some m) none = false
  same_name (some m) (some n) = same_text m n

  abbrev pub is_lex_info_equal : Option LexInfo → Option LexInfo → Bool
  is_lex_info_equal none l2 = false
  is_lex_info_equal (some l1) none = false
  is_lex_info_equal (some l1) (some l2) =
      ((l1.li_line == l2.li_line) && (l1.li_count == l2.li_count))
      && same_name l1.li_name l2.li_name

  abbrev same_type : AlertType → AlertType → Bool
  same_type error error = true
  same_type warning warning = true
  same_type error warning = false
  same_type warning error = false

  abbrev pub same_error : Error → Error → Bool
  same_error e err =
      (is_lex_info_equal e.err_info err.err_info && same_type err.err_type e.err_type)
      && same_text err.err_msg e.err_msg

  -- The errors, newest first, as `is_error_exist` goes through them.
  abbrev pub is_error_exist : Error → List Error → Bool
  is_error_exist e [] = false
  is_error_exist e (err ∷ es) =
      let rest = is_error_exist e es in if same_error e err then true else rest

  -- `akl_raise_error`; NULL is the empty list.
  unfoldable pub raise_error : Error → List Error → List Error
  raise_error e es = if is_error_exist e es then es else e ∷ es

  -- An error whose place is known.
  abbrev pub HasPlace : Error → Type 0
  HasPlace e = (l : LexInfo) × (n : List ℕ) × (e.err_info ≡ some l) × (l.li_name ≡ some n)

  -- An error with a known place stands in the list once at most.
  abbrev pub Once : List Error → Type 0
  Once es =
      (i j : ℕ) (e : Error) → get_elem? es i ≡ some e → get_elem? es j ≡ some e → HasPlace e → i ≡ j

  both_true : {a b : Bool} → a ≡ true → b ≡ true → (a && b) ≡ true
  both_true {a} {b} h k = ap (λ x. x && b) h ∙ k

  same_type_self : (t : AlertType) → same_type t t ≡ true
  same_type_self error = refl
  same_type_self warning = refl

  module _ (same_text_self : (s : List ℕ) → same_text s s ≡ true) where
    same_error_self : (e : Error) → HasPlace e → same_error e e ≡ true
    same_error_self e (l, n, place, name) =
        let named = ap (λ o. same_name o o) name ∙ same_text_self n in
        let line : (l.li_line == l.li_line) ≡ true = ground arith in
        let column : (l.li_count == l.li_count) ≡ true = ground arith in
        let info =
          ap (λ i. is_lex_info_equal i i) place ∙ both_true (both_true line column) named in
        both_true (both_true info (same_type_self e.err_type)) (same_text_self e.err_msg)

    found :
        (es : List Error) (i : ℕ) (e : Error)
        → get_elem? es i ≡ some e
        → HasPlace e
        → is_error_exist e es ≡ true
    found [] i e at h = ground arith
    found (err ∷ es) zero e at h =
        let is : err ≡ e = ap (λ o. elim o [ none ↦ e | some f ↦ f ]) at in
        ap (λ b. if b then true else is_error_exist e es)
          (ap (λ f. same_error e f) is ∙ same_error_self e h)
    found (err ∷ es) (suc i) e at h =
        let rest = found es i e at h in
        elim (Bool-cases (same_error e err)) [
          | inl is ↦ ap (λ b. if b then true else is_error_exist e es) is
          | inr is ↦ ap (λ b. if b then true else is_error_exist e es) is ∙ rest
        ]

    more-Once :
        (e : Error) (es : List Error) → is_error_exist e es ≡ false → Once es → Once (e ∷ es)
    more-Once e es new once zero zero f at1 at2 h = refl
    more-Once e es new once (suc i) (suc j) f at1 at2 h = ap suc (once i j f at1 at2 h)
    more-Once e es new once zero (suc j) f at1 at2 h =
        let is : e ≡ f = ap (λ o. elim o [ none ↦ f | some g ↦ g ]) at1 in
        let old = found es j f at2 h in
        absurd (true-ne-false (sym old ∙ ap (λ g. is_error_exist g es) (sym is) ∙ new))
    more-Once e es new once (suc i) zero f at1 at2 h =
        let is : e ≡ f = ap (λ o. elim o [ none ↦ f | some g ↦ g ]) at2 in
        let old = found es i f at1 h in
        absurd (true-ne-false (sym old ∙ ap (λ g. is_error_exist g es) (sym is) ∙ new))

    raised-Once : (e : Error) (es : List Error) → Once es → Once (raise_error e es)
    unfolding raise_error
    raised-Once e es once = elim (Bool-cases (is_error_exist e es)) [
      | inl old ↦ subst (λ r. Once r) (sym (ap (λ b. if b then es else e ∷ es) old)) once
      | inr new ↦
          subst (λ r. Once r) (sym (ap (λ b. if b then es else e ∷ es) new))
            (more-Once e es new once)
    ]

    -- Where texts compare as the same as themselves, and an error with a known place stands in the list
    -- once at most, the same holds after akl_raise_error: two positions of such an error are equal.
    pub raise_error-Once :
        (e : Error) (es : List Error)
        → Once es
        → (i j : ℕ) (f : Error) → get_elem? (raise_error e es) i ≡ some f
        → get_elem? (raise_error e es) j ≡ some f
        → HasPlace f
        → i ≡ j
    raise_error-Once e es once i j f at1 at2 h = raised-Once e es once i j f at1 at2 h

-- The errors that `akl_clear_errors` frees, oldest first: its loop goes on while there is a next one.
abbrev pub freed : List Error → List Error
freed [] = []
freed (e ∷ []) = []
freed (e ∷ f ∷ es) = e ∷ freed (f ∷ es)
