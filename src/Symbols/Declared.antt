-- ===== src/Symbols/Declared.antt =====
-- A global variable set by its name, as the functions of the library are declared.
use ak_lisp.Base.{
  ℕ, Bool, true, Option, some, [], ◌≡◌, refl, ap, sym, ◌∙◌, length, get_elem?, Bool-cases,
  Option-cases, inl, inr, get_elem?-append_left, get_elem?-append_self, get_elem?_lt, if◌then◌else◌,
}
use ak_lisp.Values.{Value}
use ak_lisp.Symbols.{
  Name, Tree, State, symbol_name, name_of, get_symbol, name_new, or_created, get_or_create,
  new_symbol, set_global_var, set_global_variable, get_global_value, get_global_variable,
}
use ak_lisp.Symbols.Interned.{
  IsTree, Interned, with_symbol, get_or_create-none, get_or_create-some, Interned-with_symbol,
}
use ak_lisp.Symbols.Variables.{Known, InOrder, get_global_value-set_global_var}

module _ {T : Type 0} (tree : Tree T) (laws : IsTree tree) where
  name_of-with_symbol :
      (name : Name) (b : Bool) (s : State T) (i : ℕ) (k : Name)
      → name_of i s ≡ some k
      → name_of i (with_symbol tree laws name b s) ≡ some k
  name_of-with_symbol name b s i k h = elim (Option-cases (get_elem? s.symbols i)) [
    | inl missing ↦ let e = sym h ∙ ap symbol_name missing in cc e
    | inr (y, at) ↦
        ap symbol_name (get_elem?-append_left s.symbols _ i (get_elem?_lt s.symbols i y at)) ∙ h
  ]

  Known-with_symbol :
      (name : Name) (b : Bool) (s : State T)
      → Known tree laws s
      → Known tree laws (with_symbol tree laws name b s)
  unfolding Known
  Known-with_symbol name b s h n a found =
      let (x, at, k, named, is) = h n a found in
      (x, at, k, name_of-with_symbol name b s x.vr_symbol k named, is)

  -- The symbol of a name, new or not: it has that name up to case.
  new_symbol-name :
      (name : Name) (b : Bool) (s : State T)
      → InOrder tree laws s
      → (a : ℕ) × (r : State T) × (new_symbol tree name b s ≡ (a, r))
        × InOrder tree laws r
        × ((k : Name) × (name_of a r ≡ some k) × (tree.is_same name k ≡ true))
        × ((n : Name) → get_global_value tree n r ≡ get_global_value tree n s)
  unfolding new_symbol get_or_create get_symbol Interned get_global_value get_global_variable
  new_symbol-name name b s (i, h) =
      let at : Option ℕ → ℕ × State T = λ o.
        let r = or_created tree name s o in
        (r.0, name_new name b (get_elem? (r.1.symbols) (r.0)) (r.0) (r.1)) in
      elim (Option-cases (tree.find name s.ai_symbols)) [
        | inl e ↦ (
          length s.symbols,
          with_symbol tree laws name b s,
          ap at e ∙ ap (λ t. (length s.symbols, t)) (get_or_create-none tree laws name b s),
          (Interned-with_symbol tree laws name b s e i, Known-with_symbol name b s h),
          (name, ap symbol_name (get_elem?-append_self s.symbols [] _), laws.same_refl name),
          λ n. refl,
        )
        | inr (a, e) ↦
            let (k, c, found, is) = i name a e in
            (
              a,
              s,
              ap at e ∙ ap (λ t. (a, t)) (get_or_create-some tree laws name b a s i e),
              (i, h),
              (k, ap symbol_name found, is),
              λ n. refl,
            )
      ]

  is_same-swap :
      (n name k : Name) → tree.is_same name k ≡ true → tree.is_same n k ≡ tree.is_same n name
  is_same-swap n name k h = elim (Bool-cases (tree.is_same n k)) [
    | inl t ↦ t ∙ sym (laws.same_join n name k t h)
    | inr f ↦ elim (Bool-cases (tree.is_same n name)) [
      | inr f2 ↦ f ∙ sym f2
      | inl t ↦
          let back = laws.same_join k name k (laws.same_refl k) h in
          let yes2 = laws.same_join n k name t back in cc yes2
    ]
  ]

  -- The setting of a global variable by its name succeeds. It keeps the symbols and variables in order,
  -- and from then on the value is that of the name in any case; the other names have the values they
  -- had, or none.
  pub get_global_value-set_global_variable :
      (name : Name) (b : Bool) (desc : Option Name) (c : Bool) (v : Value) (s : State T)
      → InOrder tree laws s
      → (r : State T) × (set_global_variable tree name b desc c v s ≡ some r)
        × InOrder tree laws r
        × ((n : Name)
            → get_global_value tree n r
              ≡ (if tree.is_same n name then some v else get_global_value tree n s))
  unfolding set_global_variable
  get_global_value-set_global_variable name b desc c v s h =
      let (a, t, made, order, (k, named, is), same) = new_symbol-name name b s h in
      let (r, done, order2, kept, values) =
        get_global_value-set_global_var tree laws a k desc c v t order named in
      (
        r,
        ap (λ p. set_global_var tree (p.0) desc c v (p.1)) made ∙ done,
        order2,
        λ n.
            values n
            ∙ ap (λ x. if x then some v else get_global_value tree n t) (is_same-swap n name k is)
            ∙ ap (λ o. if tree.is_same n name then some v else o) (same n),
      )
