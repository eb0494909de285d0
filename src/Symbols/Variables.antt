-- ===== src/Symbols/Variables.antt =====
-- The global variables are a map from names, up to case, to values.
use mathlib.Core.Path.{subst}
use ak_lisp.Base.{
  some_inj, ℕ, ◌<◌, ◌≢◌, Bool, true, false, Option, none, some, [], ◌∷◌, ◌++◌, ◌≡◌, refl, ap, sym,
  ◌∙◌, arith, length, get_elem?, set, ◌==◌, Bool-cases, Option-cases, inl, inr, length-append,
  get_elem?-append_left, get_elem?-append_self, set-append_self, get_elem?-set_self,
  get_elem?-set_ne, get_elem?_lt, if◌then◌else◌,
}
use ak_lisp.Values.{Value}
use ak_lisp.Symbols.{
  Name, Variable, Tree, State, value_of, value_at, name_of, new_var, put_value, found_or_inserted,
  set_global, set_global_var, get_global_variable, get_global_value,
}
use ak_lisp.Symbols.Interned.{IsTree, Interned}

by_case :
    {A : Type 0} {x y z : A} (b : Bool)
    → (b ≡ true → x ≡ y)
    → (b ≡ false → x ≡ z)
    → x ≡ (if b then y else z)
by_case true f g = f refl
by_case false f g = g refl

module _ {T : Type 0} (tree : Tree T) (laws : IsTree tree) where
  -- Each variable in the tree is found under the name of its symbol.
  unfoldable pub Known : State T → Type 0
  Known s =
      (n : Name) (a : ℕ)
      → tree.find n s.ai_global_vars ≡ some a
      → (x : Variable) × (get_elem? s.variables a ≡ some x)
        × (k : Name) × (name_of x.vr_symbol s ≡ some k)
        × (tree.is_same n k ≡ true)

  known :
      (s : State T)
      → Known s
      → (n : Name) (a : ℕ) → tree.find n s.ai_global_vars ≡ some a
      → (x : Variable) × (get_elem? s.variables a ≡ some x)
        × (k : Name) × (name_of x.vr_symbol s ≡ some k)
        × (tree.is_same n k ≡ true)
  unfolding Known
  known s h = h

  module _ (symb : ℕ) (desc : Option Name) (c : Bool) (v : Value) (s : State T) where
    abbrev blank : Variable
    blank = record { vr_symbol = symb; vr_value = none; vr_desc = none; vr_is_cdesc = false }

    abbrev filled : Variable → Variable
    filled x = record x { vr_value = some v; vr_desc = desc; vr_is_cdesc = c }

    abbrev with_variable : Name → State T
    with_variable name = record s {
      variables = s.variables ++ (filled blank ∷ []);
      ai_global_vars = tree.insert name (length s.variables) s.ai_global_vars;
    }

    abbrev with_value : ℕ → Variable → State T
    with_value o x = record s { variables = set (s.variables ++ (blank ∷ [])) o (filled x) }

    set_global_var-new :
        (name : Name)
        → name_of symb s ≡ some name
        → tree.find name s.ai_global_vars ≡ none
        → set_global_var tree symb desc c v s ≡ some (with_variable name)
    unfolding set_global_var
    set_global_var-new name h e =
        let var = length s.variables in
        let s1 = (new_var symb s).1 in
        let put = λ (r : ℕ × State T). put_value desc c v (get_elem? (r.1.variables) (r.0)) r in
        ap (λ o. set_global tree desc c v o (var, s1)) h
        ∙ ap (λ o. put (found_or_inserted tree name var o s1)) e
        ∙ ap (λ o. put_value desc c v o (found_or_inserted tree name var none s1))
            (get_elem?-append_self s.variables [] blank)
        ∙ ap
            (λ t.
              some (record s {
                variables = t;
                ai_global_vars = tree.insert name var s.ai_global_vars;
              }))
            (set-append_self s.variables blank (filled blank))

    set_global_var-old :
        (name : Name) (o : ℕ) (x : Variable)
        → name_of symb s ≡ some name
        → tree.find name s.ai_global_vars ≡ some o
        → get_elem? s.variables o ≡ some x
        → set_global_var tree symb desc c v s ≡ some (with_value o x)
    unfolding set_global_var
    set_global_var-old name o x h e at =
        let var = length s.variables in
        let s1 = (new_var symb s).1 in
        let put = λ (r : ℕ × State T). put_value desc c v (get_elem? (r.1.variables) (r.0)) r in
        ap (λ p. set_global tree desc c v p (var, s1)) h
        ∙ ap (λ p. put (found_or_inserted tree name var p s1)) e
        ∙ ap (λ p. put_value desc c v p (o, s1))
            (get_elem?-append_left s.variables (blank ∷ []) o (get_elem?_lt s.variables o x at)
              ∙ at)

    find-inserted :
        (n name : Name)
        → tree.find name s.ai_global_vars ≡ none
        → tree.is_same n name ≡ true
        → tree.find n (with_variable name).ai_global_vars ≡ some (length s.variables)
    find-inserted n name e is =
        laws.find_insert n name (length s.variables) s.ai_global_vars e
        ∙ ap (λ b. if b then some (length s.variables) else tree.find n s.ai_global_vars) is

    find-not_inserted :
        (n name : Name)
        → tree.find name s.ai_global_vars ≡ none
        → tree.is_same n name ≡ false
        → tree.find n (with_variable name).ai_global_vars ≡ tree.find n s.ai_global_vars
    find-not_inserted n name e not =
        laws.find_insert n name (length s.variables) s.ai_global_vars e
        ∙ ap (λ b. if b then some (length s.variables) else tree.find n s.ai_global_vars) not

    -- What is found stays where it was.
    value_at-append :
        (o : Option ℕ) (x : Variable)
        → ((a : ℕ) → o ≡ some a → a < length s.variables)
        → value_at (s.variables ++ (x ∷ [])) o ≡ value_at s.variables o
    value_at-append none x h = refl
    value_at-append (some a) x h =
        ap value_of (get_elem?-append_left s.variables (x ∷ []) a (h a refl))

    value_at-set :
        (o : Option ℕ) (i : ℕ) (x : Variable)
        → ((a : ℕ) → o ≡ some a → i ≢ a)
        → value_at (set (s.variables ++ (blank ∷ [])) i x) o
          ≡ value_at (s.variables ++ (blank ∷ [])) o
    value_at-set none i x h = refl
    value_at-set (some a) i x h =
        ap value_of (get_elem?-set_ne (s.variables ++ (blank ∷ [])) i a x (h a refl))

    Known-lt :
        Known s
        → (n : Name) (a : ℕ) → tree.find n s.ai_global_vars ≡ some a
        → a < length s.variables
    unfolding Known
    Known-lt h n a e = let (x, at, k, named, is) = h n a e in get_elem?_lt s.variables a x at

    get_global_value-new :
        (n name : Name)
        → Known s
        → tree.find name s.ai_global_vars ≡ none
        → get_global_value tree n (with_variable name)
          ≡ (if tree.is_same n name then some v else get_global_value tree n s)
    unfolding get_global_value get_global_variable
    get_global_value-new n name h e =
        let xs = s.variables ++ (filled blank ∷ []) in
        by_case (tree.is_same n name)
          (λ is.
            ap (value_at xs) (find-inserted n name e is)
            ∙ ap value_of (get_elem?-append_self s.variables [] (filled blank)))
          (λ not.
            ap (value_at xs) (find-not_inserted n name e not)
            ∙ value_at-append (tree.find n s.ai_global_vars) (filled blank) (Known-lt h n))

    -- Names with one variable are the same up to case.
    Known-join :
        (n name : Name) (a o : ℕ)
        → Known s
        → tree.find n s.ai_global_vars ≡ some a
        → tree.find name s.ai_global_vars ≡ some o
        → o ≡ a
        → tree.is_same n name ≡ true
    unfolding Known
    Known-join n name a o h e f same =
        let (x, at, k, named, one) = h n a e in
        let (y, at2, j, named2, two) = h name o f in
        let xy : x ≡ y = some_inj (sym at ∙ ap (get_elem? s.variables) (sym same) ∙ at2) in
        let kj : k ≡ j = some_inj (sym named ∙ ap (λ z. name_of z.vr_symbol s) xy ∙ named2) in
        laws.same_join n name k one (subst (λ i. tree.is_same name i ≡ true) (sym kj) two)

    get_global_value-old :
        (n name : Name) (o : ℕ) (x : Variable)
        → Known s
        → tree.find name s.ai_global_vars ≡ some o
        → get_global_value tree n (with_value o x)
          ≡ (if tree.is_same n name then some v else get_global_value tree n s)
    unfolding get_global_value get_global_variable
    get_global_value-old n name o x h e =
        let xs = s.variables ++ (blank ∷ []) in
        let size = length-append s.variables (blank ∷ []) in
        let inside : o < length xs = let lt = Known-lt h name o e in omega arith in
        by_case (tree.is_same n name)
          (λ is.
            ap (value_at (set xs o (filled x))) (laws.find_same n name s.ai_global_vars is ∙ e)
            ∙ ap value_of (get_elem?-set_self xs o (filled x) inside))
          (λ not.
            value_at-set (tree.find n s.ai_global_vars) o (filled x)
              (λ a f same. let both = Known-join n name a o h f e same in cc (both, not))
            ∙ value_at-append (tree.find n s.ai_global_vars) blank (Known-lt h n))

    Known-new :
        (name : Name)
        → name_of symb s ≡ some name
        → tree.find name s.ai_global_vars ≡ none
        → Known s
        → Known (with_variable name)
    unfolding Known
    Known-new name named e h n a found = elim (Bool-cases (tree.is_same n name)) [
      | inl is ↦
          let here = some_inj (sym (find-inserted n name e is) ∙ found) in
          (
            filled blank,
            ap (λ i. get_elem? (s.variables ++ (filled blank ∷ [])) i) (sym here)
                ∙ get_elem?-append_self s.variables [] (filled blank),
            name,
            named,
            is,
          )
      | inr not ↦
          let before = sym (find-not_inserted n name e not) ∙ found in
          let (x, at, k, named2, is) = h n a before in
          (
            x,
            get_elem?-append_left s.variables (filled blank ∷ []) a
                  (get_elem?_lt s.variables a x at)
                ∙ at,
            k,
            named2,
            is,
          )
    ]

    Known-old :
        (o : ℕ) (x : Variable) → get_elem? s.variables o ≡ some x → Known s → Known (with_value o x)
    unfolding Known
    Known-old o x at h n a found =
        let xs = s.variables ++ (blank ∷ []) in
        let size = length-append s.variables (blank ∷ []) in
        let (y, at2, k, named, is) = h n a found in
        let lt = get_elem?_lt s.variables a y at2 in
        let kept = get_elem?-append_left s.variables (blank ∷ []) a lt ∙ at2 in
        elim (Bool-cases (o == a)) [
          | inl same ↦
              let e : o ≡ a = ground (arith, same) in
              let xy : x ≡ y = some_inj (sym at ∙ ap (get_elem? s.variables) e ∙ at2) in
              (
                filled x,
                ap (get_elem? (set xs o (filled x))) (sym e)
                    ∙ get_elem?-set_self xs o (filled x) (omega arith),
                k,
                ap (λ z. name_of z.vr_symbol s) xy ∙ named,
                is,
              )
          | inr other ↦
              (y, get_elem?-set_ne xs o a (filled x) (ground (arith, other)) ∙ kept, k, named, is)
        ]

  -- Symbols and variables in order: each is found under its own name.
  abbrev pub InOrder : State T → Type 0
  InOrder s = Interned tree laws s × Known s

  -- The setting of a variable for a symbol that has a name succeeds. It keeps the symbols and variables in
  -- order, and from then on the value is that of the name in any case; the other names have the values
  -- they had, or none. No symbol is new.
  pub get_global_value-set_global_var :
      (symb : ℕ) (name : Name) (desc : Option Name) (c : Bool) (v : Value) (s : State T)
      → InOrder s
      → name_of symb s ≡ some name
      → (r : State T) × (set_global_var tree symb desc c v s ≡ some r)
        × InOrder r
        × (r.symbols ≡ s.symbols)
        × ((n : Name)
            → get_global_value tree n r
              ≡ (if tree.is_same n name then some v else get_global_value tree n s))
  unfolding Interned
  get_global_value-set_global_var symb name desc c v s (i, h) named =
      elim (Option-cases (tree.find name s.ai_global_vars)) [
        | inl e ↦ (
          with_variable symb desc c v s name,
          set_global_var-new symb desc c v s name named e,
          (i, Known-new symb desc c v s name named e h),
          refl,
          λ n. get_global_value-new symb desc c v s n name h e,
        )
        | inr (o, e) ↦
            let (x, at, k, named2, is) = known s h name o e in
            (
              with_value symb desc c v s o x,
              set_global_var-old symb desc c v s name o x named e at,
              (i, Known-old symb desc c v s o x at h),
              refl,
              λ n. get_global_value-old symb desc c v s n name o x h e,
            )
      ]
