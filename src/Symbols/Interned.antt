-- ===== src/Symbols/Interned.antt =====
-- Symbols exist once for each name, up to case.
use mathlib.Core.Option
use mathlib.Core.Path.{subst}
use ak_lisp.Base.{
  some_inj, ℕ, Bool, true, false, Option, none, some, [], ◌∷◌, ◌++◌, ◌≡◌, refl, ap, sym, ◌∙◌,
  length, get_elem?, Bool-cases, Option-cases, inl, inr, get_elem?-append_left,
  get_elem?-append_self, set-append_self, get_elem?_lt, if◌then◌else◌,
}
use ak_lisp.Symbols.{
  Name, Symbol, Tree, State, get_symbol, created, or_created, get_or_create, name_if_null, name_new,
  get_or_create_symbol,
}

-- What the program relies on of a tree: `strcasecmp` tells which names are the same, and an insertion
-- adds an element unless one with the same name is there.
pub record IsTree {T : Type 0} (tree : Tree T) : Type 0 where
  pub same_refl : (n : Name) → tree.is_same n n ≡ true
  pub same_join :
      (n j k : Name) → tree.is_same n k ≡ true → tree.is_same j k ≡ true → tree.is_same n j ≡ true
  pub find_empty : (n : Name) → tree.find n tree.empty ≡ none
  pub find_same : (n k : Name) (t : T) → tree.is_same n k ≡ true → tree.find n t ≡ tree.find k t
  pub find_insert :
      (n k : Name) (a : ℕ) (t : T)
      → tree.find k t ≡ none
      → tree.find n (tree.insert k a t) ≡ (if tree.is_same n k then some a else tree.find n t)

then_agree : {A : Type 0} (b : Bool) (x y : A) → (b ≡ true → x ≡ y) → x ≡ (if b then y else x)
then_agree true x y h = h refl
then_agree false x y h = refl

pub then_case :
    {A : Type 0} (b : Bool) (x y : A) (o : Option A)
    → b ≡ true
    → (if b then some x else o) ≡ some y
    → x ≡ y
then_case b x y o h e = some_inj (sym (ap (λ c. if c then some x else o) h) ∙ e)

pub else_case : {A : Type 0} (b : Bool) (x y z : A) → b ≡ false → (if b then x else y) ≡ z → y ≡ z
else_case b x y z h e = sym (ap (λ c. if c then x else y) h) ∙ e

module _ {T : Type 0} where
  name_if_null-ai_symbols :
      (name : Name) (b : Bool) (o : Option Name) (a : ℕ) (s : State T)
      → (name_if_null name b o a s).ai_symbols ≡ s.ai_symbols
  name_if_null-ai_symbols name b none a s = refl
  name_if_null-ai_symbols name b (some k) a s = refl

  name_new-ai_symbols :
      (name : Name) (b : Bool) (o : Option Symbol) (a : ℕ) (s : State T)
      → (name_new name b o a s).ai_symbols ≡ s.ai_symbols
  name_new-ai_symbols name b none a s = refl
  name_new-ai_symbols name b (some y) a s = name_if_null-ai_symbols name b y.sb_name a s

module _ {T : Type 0} (tree : Tree T) (laws : IsTree tree) where
  -- Each symbol in the tree is found under its own name.
  unfoldable pub Interned : State T → Type 0
  Interned s =
      (n : Name) (a : ℕ)
      → tree.find n s.ai_symbols ≡ some a
      → (k : Name) × (b : Bool) × (get_elem? s.symbols a
          ≡ some (record { sb_name = some k; sb_is_cdef = b }))
        × (tree.is_same n k ≡ true)

  find-or_created :
      (n name : Name) (s : State T) (o : Option ℕ)
      → tree.find name s.ai_symbols ≡ o
      → tree.find n (or_created tree name s o).1.ai_symbols ≡ (
          if tree.is_same n name
          then some ((or_created tree name s o).0)
          else tree.find n s.ai_symbols)
  find-or_created n name s none e = laws.find_insert n name (length s.symbols) s.ai_symbols e
  find-or_created n name s (some a) e =
      then_agree (tree.is_same n name) (tree.find n s.ai_symbols) (some a)
        (λ h. laws.find_same n name s.ai_symbols h ∙ e)

  -- The symbol that akl_get_or_create_symbol returns is from then on the symbol of that name in any
  -- case; the other names have the symbols they had, or none.
  pub get_symbol-get_or_create_symbol :
      (n name : Name) (s : State T)
      → get_symbol tree n ((get_or_create_symbol tree name s).1) ≡ (
          if tree.is_same n name
          then some ((get_or_create_symbol tree name s).0)
          else get_symbol tree n s)
  unfolding get_symbol get_or_create get_or_create_symbol
  get_symbol-get_or_create_symbol n name s =
      let o = tree.find name s.ai_symbols in
      let r = or_created tree name s o in
      ap (λ t. tree.find n t)
        (name_new-ai_symbols name false (get_elem? (r.1.symbols) (r.0)) (r.0) (r.1))
      ∙ find-or_created n name s o refl

  -- The state with a new symbol that has its name.
  abbrev pub with_symbol : Name → Bool → State T → State T
  with_symbol name b s = record s {
    symbols = s.symbols ++ (record { sb_name = some name; sb_is_cdef = b } ∷ []);
    ai_symbols = tree.insert name (length s.symbols) s.ai_symbols;
  }

  pub get_or_create-none :
      (name : Name) (b : Bool) (s : State T)
      → (let r = or_created tree name s none in
          name_new name b (get_elem? (r.1.symbols) (r.0)) (r.0) (r.1))
        ≡ with_symbol name b s
  get_or_create-none name b s =
      let y : Symbol = record { sb_name = none; sb_is_cdef = true } in
      ap (λ o. name_new name b o (length s.symbols) ((created tree name s).1))
        (get_elem?-append_self s.symbols [] y)
      ∙ ap
          (λ t. record s {
            symbols = t;
            ai_symbols = tree.insert name (length s.symbols) s.ai_symbols;
          })
          (set-append_self s.symbols y _)

  pub get_or_create-some :
      (name : Name) (b : Bool) (a : ℕ) (s : State T)
      → Interned s
      → tree.find name s.ai_symbols ≡ some a
      → (let r = or_created tree name s (some a) in
          name_new name b (get_elem? (r.1.symbols) (r.0)) (r.0) (r.1))
        ≡ s
  unfolding Interned
  get_or_create-some name b a s h e =
      let (k, c, at, same) = h name a e in ap (λ o. name_new name b o a s) at

  pub Interned-with_symbol :
      (name : Name) (b : Bool) (s : State T)
      → tree.find name s.ai_symbols ≡ none
      → Interned s
      → Interned (with_symbol name b s)
  unfolding Interned
  Interned-with_symbol name b s e h n a found =
      let y : Symbol = record { sb_name = some name; sb_is_cdef = b } in
      let split = sym (laws.find_insert n name (length s.symbols) s.ai_symbols e) ∙ found in
      elim (Bool-cases (tree.is_same n name)) [
        | inl is ↦
            let here =
              then_case (tree.is_same n name) (length s.symbols) a (tree.find n s.ai_symbols) is
                split in
            (
              name,
              b,
              ap (λ i. get_elem? (s.symbols ++ (y ∷ [])) i) (sym here)
                  ∙ get_elem?-append_self s.symbols [] y,
              is,
            )
        | inr not ↦
            let (k, c, at, same) = h n a (
              else_case (tree.is_same n name) (some (length s.symbols)) (tree.find n s.ai_symbols)
                (some a) not split) in
            (
              k,
              c,
              get_elem?-append_left s.symbols (y ∷ []) a (get_elem?_lt s.symbols a _ at) ∙ at,
              same,
            )
      ]

  get_or_create_symbol-none :
      (name : Name) (s : State T)
      → tree.find name s.ai_symbols ≡ none
      → get_or_create_symbol tree name s ≡ (length s.symbols, with_symbol name false s)
  unfolding get_symbol get_or_create get_or_create_symbol
  get_or_create_symbol-none name s e =
      ap
        (λ o.
          let r = or_created tree name s o in
          (r.0, name_new name false (get_elem? (r.1.symbols) (r.0)) (r.0) (r.1)))
        e
      ∙ ap (λ t. (length s.symbols, t)) (get_or_create-none name false s)

  get_or_create_symbol-some :
      (name : Name) (a : ℕ) (s : State T)
      → Interned s
      → tree.find name s.ai_symbols ≡ some a
      → get_or_create_symbol tree name s ≡ (a, s)
  unfolding get_symbol get_or_create get_or_create_symbol
  get_or_create_symbol-some name a s h e =
      ap
        (λ o.
          let r = or_created tree name s o in
          (r.0, name_new name false (get_elem? (r.1.symbols) (r.0)) (r.0) (r.1)))
        e
      ∙ ap (λ t. (a, t)) (get_or_create-some name false a s h e)

  find-with_symbol :
      (name : Name) (b : Bool) (s : State T)
      → tree.find name s.ai_symbols ≡ none
      → tree.find name (with_symbol name b s).ai_symbols ≡ some (length s.symbols)
  find-with_symbol name b s e =
      laws.find_insert name name (length s.symbols) s.ai_symbols e
      ∙ ap (λ c. if c then some (length s.symbols) else tree.find name s.ai_symbols)
          (laws.same_refl name)

  -- A state in which each symbol in the tree is found under its own name stays so: when
  -- akl_get_or_create_symbol asks for a name, it finds that symbol again, and a second time it changes
  -- nothing.
  pub Interned-get_or_create_symbol :
      (name : Name) (s : State T)
      → Interned s
      → Interned ((get_or_create_symbol tree name s).1)
        × (get_or_create_symbol tree name ((get_or_create_symbol tree name s).1)
            ≡ get_or_create_symbol tree name s)
  Interned-get_or_create_symbol name s h = elim (Option-cases (tree.find name s.ai_symbols)) [
    | inl e ↦
        let first = get_or_create_symbol-none name s e in
        let kept = Interned-with_symbol name false s e h in
        (
          subst (λ r. Interned (r.1)) (sym first) kept,
          ap (λ r. get_or_create_symbol tree name (r.1)) first
              ∙ get_or_create_symbol-some name (length s.symbols) (with_symbol name false s) kept
                  (find-with_symbol name false s e)
              ∙ sym first,
        )
    | inr (a, e) ↦
        let same = get_or_create_symbol-some name a s h e in
        (
          subst (λ r. Interned (r.1)) (sym same) h,
          ap (λ r. get_or_create_symbol tree name (r.1)) same,
        )
  ]

  -- Names have the same symbol only when they are the same up to case.
  pub get_symbol_same :
      (n j : Name) (a : ℕ) (s : State T)
      → Interned s
      → get_symbol tree n s ≡ some a
      → get_symbol tree j s ≡ some a
      → tree.is_same n j ≡ true
  unfolding get_symbol Interned
  get_symbol_same n j a s h e f =
      let (k, b, at, one) = h n a e in
      let (k2, b2, at2, two) = h j a f in
      let names : some (some k) ≡ some (some k2) =
        ap (Option.map (λ y. y.sb_name)) (sym at ∙ at2) in
      laws.same_join n j k one
        (subst (λ i. tree.is_same j i ≡ true) (sym (some_inj (some_inj names))) two)
