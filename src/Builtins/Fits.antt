-- ===== src/Builtins/Fits.antt =====
-- The arguments that `akl_get_args` and `akl_get_args_strict` of src/aklisp.c take off a frame.
use ak_lisp.Base.{
  ℕ, suc, Bool, true, false, Option, none, some, List, [], ◌∷◌, ◌++◌, ◌≡◌, refl, ap, ◌∙◌, arith,
  length, ◌==◌, if◌then◌else◌,
}
use ak_lisp.Values.{Value, ValueType}
use ak_lisp.Machine.{Machine, raise, expected_type, expected_arguments}
use ak_lisp.Machine.OnFrame.{on_frame, frame_shift-on_frame}
use ak_lisp.Builtins.Args.{
  Args, mismatch, with_first, taken, shift_args, get_args, taken_strict, shift_strict, counted,
  get_args_strict,
}

-- Values that are of the types, one each.
pub data Fits : List (Option ValueType) → List Value → Type 0 where
  fits_nil : Fits [] []
  fits_cons :
      {t : Option ValueType} {v : Value} {ts : List (Option ValueType)} {vs : List Value}
      → mismatch t v ≡ false
      → Fits ts vs
      → Fits (t ∷ ts) (v ∷ vs)

length-Fits : (ts : List (Option ValueType)) (vs : List Value) → Fits ts vs → length ts ≡ length vs
length-Fits [] [] fits_nil = refl
length-Fits [] (v ∷ vs) f = elim f [ ]
length-Fits (t ∷ ts) [] f = elim f [ ]
length-Fits (t ∷ ts) (v ∷ vs) (fits_cons h f) = ap (λ n. suc n) (length-Fits ts vs f)

count_self : (n : ℕ) → (n == n) ≡ true
count_self n = ground arith

module _ {G : Type 0} (below : List Value) (m : Machine G) where
  shift_args-on_frame :
      (vs : List Value)
      → shift_args (length vs) (on_frame below vs m) ≡ (some vs, on_frame below [] m)
  shift_args-on_frame [] = refl
  shift_args-on_frame (v ∷ vs) =
      ap (λ r. taken r (shift_args (length vs) r.1)) (frame_shift-on_frame below vs v m)
      ∙ ap (λ r. with_first v r) (shift_args-on_frame vs)

  shift_args-if :
      (n : ℕ) (vs : List Value) (b : Bool) (r : Args G)
      → (n == length vs) ≡ b
      → (if b then shift_args n (on_frame below vs m) else r)
        ≡ (if b then (some vs, on_frame below [] m) else r)
  shift_args-if n vs true r h =
      let e : n ≡ length vs = ground (arith, h) in
      ap (λ k. shift_args k (on_frame below vs m)) e ∙ shift_args-on_frame vs
  shift_args-if n vs false r h = refl

  -- `akl_get_args` for as many arguments as the frame has takes them in their order and leaves the frame
  -- empty; for another number it raises an error and leaves the frame as it is.
  pub get_args-on_frame :
      (n : ℕ) (vs : List Value)
      → get_args n (on_frame below vs m) ≡ (
          if n == length vs
          then (some vs, on_frame below [] m)
          else (none, raise expected_arguments (on_frame below vs m)))
  unfolding get_args
  get_args-on_frame n vs =
      shift_args-if n vs (n == length vs) (none, raise expected_arguments (on_frame below vs m))
        refl

  shift_strict-on_frame :
      (ts : List (Option ValueType)) (vs : List Value)
      → Fits ts vs
      → shift_strict ts (on_frame below vs m) ≡ (some vs, on_frame below [] m)
  shift_strict-on_frame [] [] fits_nil = refl
  shift_strict-on_frame [] (v ∷ vs) f = elim f [ ]
  shift_strict-on_frame (t ∷ ts) [] f = elim f [ ]
  shift_strict-on_frame (t ∷ ts) (v ∷ vs) (fits_cons h f) =
      ap (λ r. taken_strict t r (shift_strict ts r.1)) (frame_shift-on_frame below vs v m)
      ∙ ap
          (λ b.
            if b
            then (none, raise expected_type (on_frame below vs m))
            else with_first v (shift_strict ts (on_frame below vs m)))
          h
      ∙ ap (λ r. with_first v r) (shift_strict-on_frame ts vs f)

  -- `akl_get_args_strict`, asked for at least one type, takes the values of a frame in their order
  -- when they are of the types asked for, one each, and leaves the frame empty. Asked for no type it
  -- returns a failure without an error, and takes nothing from the frame.
  pub get_args_strict-Fits :
      (t : Option ValueType) (ts : List (Option ValueType)) (vs : List Value)
      → Fits (t ∷ ts) vs
      → (get_args_strict (t ∷ ts) (on_frame below vs m) ≡ (some vs, on_frame below [] m))
        × (get_args_strict [] (on_frame below vs m) ≡ (none, on_frame below vs m))
  unfolding get_args_strict
  get_args_strict-Fits t ts vs f =
      let e : (length vs == suc (length ts)) ≡ true =
        ap (λ n. length vs == n) (length-Fits (t ∷ ts) vs f) ∙ count_self (length vs) in
      (
        ap (λ r. counted (length vs == suc (length ts)) r) (shift_strict-on_frame (t ∷ ts) vs f)
            ∙ ap (λ b. counted b (some vs, on_frame below [] m)) e,
        refl,
      )

  shift_strict-error :
      (ts us : List (Option ValueType)) (vs ws : List Value) (t : Option ValueType) (v : Value)
      → Fits ts vs
      → mismatch t v ≡ true
      → shift_strict (ts ++ (t ∷ us)) (on_frame below (vs ++ (v ∷ ws)) m)
        ≡ (none, raise expected_type (on_frame below ws m))
  shift_strict-error [] us [] ws t v fits_nil e =
      ap (λ r. taken_strict t r (shift_strict us r.1)) (frame_shift-on_frame below ws v m)
      ∙ ap
          (λ b.
            if b
            then (none, raise expected_type (on_frame below ws m))
            else with_first v (shift_strict us (on_frame below ws m)))
          e
  shift_strict-error [] us (w ∷ vs) ws t v f e = elim f [ ]
  shift_strict-error (s ∷ ts) us [] ws t v f e = elim f [ ]
  shift_strict-error (s ∷ ts) us (w ∷ vs) ws t v (fits_cons h f) e =
      let rest = on_frame below (vs ++ (v ∷ ws)) m in
      let more = shift_strict (ts ++ (t ∷ us)) rest in
      ap (λ r. taken_strict s r (shift_strict (ts ++ (t ∷ us)) r.1))
        (frame_shift-on_frame below (vs ++ (v ∷ ws)) w m)
      ∙ ap (λ b. if b then (none, raise expected_type rest) else with_first w more) h
      ∙ ap (λ r. with_first w r) (shift_strict-error ts us vs ws t v f e)

  -- The first value that is not of its type is an error of `akl_get_args_strict`, and the values behind
  -- it stay in the frame.
  pub get_args_strict-error :
      (ts us : List (Option ValueType)) (vs ws : List Value) (t : Option ValueType) (v : Value)
      → Fits ts vs
      → mismatch t v ≡ true
      → get_args_strict (ts ++ (t ∷ us)) (on_frame below (vs ++ (v ∷ ws)) m)
        ≡ (none, raise expected_type (on_frame below ws m))
  unfolding get_args_strict
  get_args_strict-error [] us vs ws t v f e =
      ap (λ r. counted (length (vs ++ (v ∷ ws)) == suc (length us)) r)
        (shift_strict-error [] us vs ws t v f e)
  get_args_strict-error (s ∷ ts) us vs ws t v f e =
      ap (λ r. counted (length (vs ++ (v ∷ ws)) == suc (length (ts ++ (t ∷ us)))) r)
        (shift_strict-error (s ∷ ts) us vs ws t v f e)
