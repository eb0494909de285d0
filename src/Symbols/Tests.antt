-- ===== src/Symbols/Tests.antt =====
-- A tree that is a list of names, and the theorems on symbols and variables at concrete data.
use ak_lisp.Base.{
  ℕ, Bool, true, false, Option, none, some, List, get_elem?, [], ◌∷◌, ◌≡◌, refl, ap, sym, ◌∙◌,
  arith, ◌==◌, Bool-cases, inl, inr, if◌then◌else◌,
}
use ak_lisp.Values.{new_number_value}
use ak_lisp.Machine.{Machine}
use ak_lisp.Machine.Code.{set_var}
use ak_lisp.Machine.Exec.{cfun, step, goto}
use ak_lisp.Symbols.Globals.{state_globals, step-set_var}
use ak_lisp.Lexer.Chars.{to_lower}
use ak_lisp.Symbols.{
  Name, Tree, State, get_symbol, get_or_create_symbol, set_global_variable, get_global_value,
}
use ak_lisp.Symbols.Interned.{
  IsTree, Interned, then_case, else_case, get_symbol-get_or_create_symbol,
  Interned-get_or_create_symbol,
}
use ak_lisp.Symbols.Variables.{Known, InOrder}
use ak_lisp.Symbols.Declared.{get_global_value-set_global_variable}
use ak_lisp.Symbols.Functions.{
  FunDecl, declare_functions, declared_value, declare_functions-declared_value,
}

abbrev same_text : Name → Name → Bool
same_text [] [] = true
same_text [] (y ∷ ys) = false
same_text (x ∷ xs) [] = false
same_text (x ∷ xs) (y ∷ ys) = if to_lower x == to_lower y then same_text xs ys else false

abbrev Entries : Type 0
Entries = List (Name × ℕ)

abbrev lookup : Name → Entries → Option ℕ
lookup n [] = none
lookup n ((k, a) ∷ es) = if same_text n k then some a else lookup n es

abbrev list_tree : Tree Entries
list_tree = record {
  is_same = λ n k. same_text n k;
  empty = [];
  find = λ n t. lookup n t;
  insert = λ k a t. (k, a) ∷ t;
}

same_text_refl : (n : Name) → same_text n n ≡ true
same_text_refl [] = refl
same_text_refl (x ∷ xs) =
    let e : (to_lower x == to_lower x) ≡ true = ground arith in
    ap (λ b. if b then same_text xs xs else false) e ∙ same_text_refl xs

both : (b r : Bool) → (if b then r else false) ≡ true → (b ≡ true) × (r ≡ true)
both true r h = (refl, h)
both false r h = cc h

equal : (x y : ℕ) → (x == y) ≡ true → x ≡ y
equal x y h = ground (arith, h)

same_self : (x : ℕ) → (x == x) ≡ true
same_self x = ground arith

same_text_join : (n j k : Name) → same_text n k ≡ true → same_text j k ≡ true → same_text n j ≡ true
same_text_join [] [] k e f = refl
same_text_join [] (y ∷ ys) [] e f = cc f
same_text_join [] (y ∷ ys) (z ∷ zs) e f = cc e
same_text_join (x ∷ xs) [] [] e f = cc e
same_text_join (x ∷ xs) [] (z ∷ zs) e f = cc f
same_text_join (x ∷ xs) (y ∷ ys) [] e f = cc e
same_text_join (x ∷ xs) (y ∷ ys) (z ∷ zs) e f =
    let (e1, e2) = both (to_lower x == to_lower z) (same_text xs zs) e in
    let (f1, f2) = both (to_lower y == to_lower z) (same_text ys zs) f in
    let h : to_lower x ≡ to_lower z = equal (to_lower x) (to_lower z) e1 in
    let g : to_lower y ≡ to_lower z = equal (to_lower y) (to_lower z) f1 in
    let here : (to_lower x == to_lower y) ≡ true =
      ap (λ i. to_lower x == i) (g ∙ sym h) ∙ same_self (to_lower x) in
    ap (λ b. if b then same_text xs ys else false) here ∙ same_text_join xs ys zs e2 f2

back : (n k : Name) → same_text n k ≡ true → same_text k n ≡ true
back n k h = same_text_join k n k (same_text_refl k) h

-- Names that are the same are the same as the same names.
agree : (n k j : Name) → same_text n k ≡ true → same_text n j ≡ same_text k j
agree n k j h = elim (Bool-cases (same_text n j)) [
  | inl t ↦ t ∙ sym (same_text_join k j n (back n k h) (back n j t))
  | inr f ↦ elim (Bool-cases (same_text k j)) [
    | inr f2 ↦ f ∙ sym f2
    | inl t ↦ let t2 = same_text_join n j k h (back k j t) in cc t2
  ]
]

lookup_same : (n k : Name) (t : Entries) → same_text n k ≡ true → lookup n t ≡ lookup k t
lookup_same n k [] h = refl
lookup_same n k ((j, a) ∷ es) h =
    ap (λ b. if b then some a else lookup n es) (agree n k j h)
    ∙ ap (λ o. if same_text k j then some a else o) (lookup_same n k es h)

list_tree-IsTree : IsTree list_tree
list_tree-IsTree = record {
  same_refl = same_text_refl;
  same_join = same_text_join;
  find_empty = λ n. refl;
  find_same = λ n k t h. lookup_same n k t h;
  find_insert = λ n k a t h. refl;
}

abbrev empty_state : State Entries
empty_state = record { symbols = []; ai_symbols = []; variables = []; ai_global_vars = [] }

empty_state-InOrder : InOrder list_tree list_tree-IsTree empty_state
unfolding Interned Known
empty_state-InOrder = (λ n a e. cc e, λ n a e. cc e)

-- car, CAR, second
abbrev car : Name
car = 99 ∷ 97 ∷ 114 ∷ []

abbrev upper_car : Name
upper_car = 67 ∷ 65 ∷ 82 ∷ []

abbrev second : Name
second = 99 ∷ 100 ∷ 114 ∷ []

get_symbol-get_or_create_symbol_example :
    get_symbol list_tree upper_car ((get_or_create_symbol list_tree car empty_state).1)
    ≡ some ((get_or_create_symbol list_tree car empty_state).0)
get_symbol-get_or_create_symbol_example =
    get_symbol-get_or_create_symbol list_tree list_tree-IsTree upper_car car empty_state

Interned-get_or_create_symbol_example :
    Interned list_tree list_tree-IsTree ((get_or_create_symbol list_tree car empty_state).1)
    × (get_or_create_symbol list_tree car ((get_or_create_symbol list_tree car empty_state).1)
        ≡ get_or_create_symbol list_tree car empty_state)
Interned-get_or_create_symbol_example =
    Interned-get_or_create_symbol list_tree list_tree-IsTree car empty_state (empty_state-InOrder.0)

get_global_value-set_global_variable_example :
    (r : State Entries) × (set_global_variable list_tree car true none false
        (new_number_value 5)
        empty_state
      ≡ some r)
    × InOrder list_tree list_tree-IsTree r
    × ((n : Name)
        → get_global_value list_tree n r ≡ (
            if same_text n car
            then some (new_number_value 5)
            else get_global_value list_tree n empty_state))
get_global_value-set_global_variable_example =
    get_global_value-set_global_variable list_tree list_tree-IsTree car true none false
      (new_number_value 5) empty_state empty_state-InOrder

abbrev table : List FunDecl
table =
    record { fd_fun = cfun 30; fd_name = car; fd_desc = [] }
    ∷ record { fd_fun = cfun 33; fd_name = second; fd_desc = [] }
    ∷ []

declare_functions-declared_value_example :
    (r : State Entries) × (declare_functions list_tree table ([], empty_state)
      ≡ some (some (cfun 30) ∷ some (cfun 33) ∷ [], r))
    × InOrder list_tree list_tree-IsTree r
    × ((n : Name)
        → get_global_value list_tree n r
          ≡ declared_value list_tree n 0 (get_global_value list_tree n empty_state) table)
declare_functions-declared_value_example =
    declare_functions-declared_value list_tree list_tree-IsTree table [] empty_state
      empty_state-InOrder

abbrev named_car : State Entries
named_car = record empty_state {
  symbols = record { sb_name = some car; sb_is_cdef = false } ∷ [];
  ai_symbols = (car, 0) ∷ [];
}

named_car-InOrder : InOrder list_tree list_tree-IsTree named_car
unfolding Interned Known
named_car-InOrder = (
  λ n a e. elim (Bool-cases (same_text n car)) [
    | inl is ↦
        let here = then_case (same_text n car) 0 a none is e in
        (car, false, ap (λ i. get_elem? named_car.symbols i) (sym here), is)
    | inr f ↦ let never = else_case (same_text n car) (some 0) none (some a) f e in cc never
  ],
  λ n a e. cc e,
)

abbrev five_on_top : Machine (State Entries)
five_on_top = record {
  stack = new_number_value 5 ∷ [];
  frame_head = none;
  frame_end = 0;
  frame_count = 0;
  globals = named_car;
  errors = [];
  ai_interrupted = false;
}

step-set_var_example :
    (g : State Entries) × (step
        (record {
          vars = state_globals list_tree;
          function = λ f. cfun f;
          call_c = λ k f argc m. none;
        })
        (λ t m. none)
        (record { ir = []; labels = [] })
        (set_var 0)
        7
        five_on_top
      ≡ some (goto (record five_on_top { globals = g }) 8))
    × InOrder list_tree list_tree-IsTree g
    × ((n : Name)
        → get_global_value list_tree n g ≡ (
            if same_text n car
            then some (new_number_value 5)
            else get_global_value list_tree n named_car))
step-set_var_example =
    step-set_var list_tree list_tree-IsTree (λ f. cfun f) (λ k f argc m. none) (λ t m. none)
      (record { ir = []; labels = [] }) 7 0 car (new_number_value 5) five_on_top named_car-InOrder
      refl refl
