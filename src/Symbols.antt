-- ===== src/Symbols.antt =====
-- The symbols and the global variables: src/types.c and src/util.c. A pointer to a symbol or a variable
-- is its position in a list of all of them; memory is not used up.
mod Interned
mod Variables
mod Declared
mod Functions
mod Globals
mod Tests
use mathlib.Core.Option
use ak_lisp.Base.{
  ℕ, Bool, true, false, Option, none, some, List, [], ◌∷◌, ◌++◌, length, get_elem?, set,
}
use ak_lisp.Values.{Value}

abbrev pub Name : Type 0
Name = List ℕ

-- `struct akl_symbol`
pub record Symbol : Type 0 where
  pub sb_name : Option Name
  pub sb_is_cdef : Bool

-- `struct akl_variable`, without the place in the source. A description is a text.
pub record Variable : Type 0 where
  pub vr_symbol : ℕ
  pub vr_value : Option Value
  pub vr_desc : Option Name
  pub vr_is_cdesc : Bool

-- A tree of src/akl_tree.h with `akl_rb_cmp_sym`, by names: the elements do not change their names while
-- they are in the tree. `is_same` says that `strcasecmp` gives 0.
pub record Tree (T : Type 0) : Type 0 where
  pub is_same : Name → Name → Bool
  pub empty : T
  pub find : Name → T → Option ℕ
  pub insert : Name → ℕ → T → T

-- The part of `struct akl_state`.
pub record State (T : Type 0) : Type 0 where
  pub symbols : List Symbol
  pub ai_symbols : T
  pub variables : List Variable
  pub ai_global_vars : T

abbrev pub symbol_name : Option Symbol → Option Name
symbol_name none = none
symbol_name (some y) = y.sb_name

abbrev pub value_of : Option Variable → Option Value
value_of none = none
value_of (some x) = x.vr_value

abbrev pub value_at : List Variable → Option ℕ → Option Value
value_at xs none = none
value_at xs (some a) = value_of (get_elem? xs a)

module _ {T : Type 0} where
  abbrev pub name_if_null : Name → Bool → Option Name → ℕ → State T → State T
  name_if_null name is_cdef (some k) a s = s
  name_if_null name is_cdef none a s = record s {
    symbols = set s.symbols a (record { sb_name = some name; sb_is_cdef = is_cdef });
  }

  abbrev pub name_new : Name → Bool → Option Symbol → ℕ → State T → State T
  name_new name is_cdef none a s = s
  name_new name is_cdef (some y) a s = name_if_null name is_cdef y.sb_name a s

  -- `akl_new_var`
  abbrev pub new_var : ℕ → State T → ℕ × State T
  new_var sym s = (
    length s.variables,
    record s {
      variables =
          s.variables
          ++ (record { vr_symbol = sym; vr_value = none; vr_desc = none; vr_is_cdesc = false }
              ∷ []);
    },
  )

  abbrev pub name_of : ℕ → State T → Option Name
  name_of sym s = symbol_name (get_elem? s.symbols sym)

  abbrev pub put_value :
      Option Name → Bool → Value → Option Variable → ℕ × State T → Option (State T)
  put_value desc is_cdesc v none (var, s) = none
  put_value desc is_cdesc v (some x) (var, s) = some (record s {
    variables =
        set s.variables var
          (record x { vr_value = some v; vr_desc = desc; vr_is_cdesc = is_cdesc });
  })

module _ {T : Type 0} (tree : Tree T) where
  unfoldable pub get_symbol : Name → State T → Option ℕ
  get_symbol name s = tree.find name s.ai_symbols

  -- The name of a new symbol is NULL.
  abbrev pub created : Name → State T → ℕ × State T
  created name s = (
    length s.symbols,
    record s {
      symbols = s.symbols ++ (record { sb_name = none; sb_is_cdef = true } ∷ []);
      ai_symbols = tree.insert name (length s.symbols) s.ai_symbols;
    },
  )

  abbrev pub or_created : Name → State T → Option ℕ → ℕ × State T
  or_created name s none = created name s
  or_created name s (some a) = (a, s)

  unfoldable pub get_or_create : Name → State T → ℕ × State T
  unfolding get_symbol
  get_or_create name s = or_created name s (get_symbol name s)

  -- `akl_new_symbol`
  unfoldable pub new_symbol : Name → Bool → State T → ℕ × State T
  unfolding get_or_create
  new_symbol name is_cname s =
      let (a, r) = get_or_create name s in (a, name_new name is_cname (get_elem? r.symbols a) a r)

  -- `akl_get_or_create_symbol`
  unfoldable pub get_or_create_symbol : Name → State T → ℕ × State T
  unfolding get_or_create
  get_or_create_symbol name s =
      let (a, r) = get_or_create name s in (a, name_new name false (get_elem? r.symbols a) a r)

  -- `VAR_TREE_RB_FIND`, then `VAR_TREE_RB_INSERT` of the new variable when there is none.
  abbrev pub found_or_inserted : Name → ℕ → Option ℕ → State T → ℕ × State T
  found_or_inserted name var (some ovar) s = (ovar, s)
  found_or_inserted name var none s =
      (var, record s { ai_global_vars = tree.insert name var s.ai_global_vars })

  -- `set_global`, the name of the symbol of the new variable given; without one the comparison fails.
  abbrev pub set_global : Option Name → Bool → Value → Option Name → ℕ × State T → Option (State T)
  set_global desc is_cdesc v none (var, s) = none
  set_global desc is_cdesc v (some name) (var, s) =
      let (x, r) = found_or_inserted name var (tree.find name s.ai_global_vars) s in
      put_value desc is_cdesc v (get_elem? r.variables x) (x, r)

  -- `akl_set_global_var`
  unfoldable pub set_global_var : ℕ → Option Name → Bool → Value → State T → Option (State T)
  set_global_var sym desc is_cdesc v s = set_global desc is_cdesc v (name_of sym s) (new_var sym s)

  -- `akl_set_global_variable`
  unfoldable pub set_global_variable :
      Name → Bool → Option Name → Bool → Value → State T → Option (State T)
  unfolding new_symbol set_global_var
  set_global_variable name is_cname desc is_cdesc v s =
      let (sym, r) = new_symbol name is_cname s in set_global_var sym desc is_cdesc v r

  -- `akl_get_global_var`; a symbol without a name fails an assertion.
  unfoldable pub get_global_var : ℕ → State T → Option (Option ℕ)
  get_global_var sym s = Option.map (λ name. tree.find name s.ai_global_vars) (name_of sym s)

  -- `akl_get_global_variable`, with a symbol on the C stack that has the name.
  unfoldable pub get_global_variable : Name → State T → Option ℕ
  get_global_variable name s = tree.find name s.ai_global_vars

  -- `akl_get_global_value`
  unfoldable pub get_global_value : Name → State T → Option Value
  unfolding get_global_variable
  get_global_value name s = value_at s.variables (get_global_variable name s)
