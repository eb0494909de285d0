-- ===== src/Values/Copy.antt =====
-- `akl_duplicate_value` and `akl_list_duplicate` of src/list.c.
use ak_lisp.Base.{ℕ, Bool, true, false, ◌&&◌, Option, none, some, ◌≡◌, refl, ap, arith}
use ak_lisp.Values.{
  Body, Value, Values, value, no_values, more, vt_nil, vt_true, vt_symbol, vt_variable, vt_number,
  vt_string, vt_list, vt_function, vt_userdata, new_user_value,
}

abbrev list_of : Option Values → Option Value
list_of none = none
list_of (some vs) = some (value false (vt_list false vs))

abbrev both : Option Value → Option Values → Option Values
both none o = none
both (some v) none = none
both (some v) (some vs) = some (more v vs)

-- `none` is NULL, for a variable, or the failed assertion for a type that is not registered. A list
-- that would hold a NULL is `none` too.
module _ (is_registered : ℕ → Bool) where
  unfoldable mutual
    pub duplicate_value : Value → Option Value
    duplicate_value (value q b) = duplicate_body q b

    duplicate_body : Bool → Body → Option Value
    duplicate_body q vt_nil = some (value false vt_nil)
    duplicate_body q vt_true = some (value false vt_true)
    duplicate_body q (vt_symbol s) = some (value false (vt_symbol s))
    duplicate_body q (vt_variable s) = none
    duplicate_body q (vt_number n) = some (value false (vt_number n))
    duplicate_body q (vt_string s) = some (value false (vt_string s))
    duplicate_body q (vt_list p vs) = list_of (list_duplicate vs)
    duplicate_body q (vt_function f) = some (value q (vt_function f))
    duplicate_body q (vt_userdata t p) = new_user_value is_registered t p

    pub list_duplicate : Values → Option Values
    list_duplicate no_values = some no_values
    list_duplicate (more v vs) = both (duplicate_value v) (list_duplicate vs)

-- A value without its quotation.
unfoldable mutual
  pub unquoted : Value → Value
  unquoted (value q b) = value false (unquoted_body b)

  unquoted_body : Body → Body
  unquoted_body vt_nil = vt_nil
  unquoted_body vt_true = vt_true
  unquoted_body (vt_symbol s) = vt_symbol s
  unquoted_body (vt_variable s) = vt_variable s
  unquoted_body (vt_number n) = vt_number n
  unquoted_body (vt_string s) = vt_string s
  unquoted_body (vt_list q vs) = vt_list false (unquoted_all vs)
  unquoted_body (vt_function f) = vt_function f
  unquoted_body (vt_userdata t p) = vt_userdata t p

  unquoted_all : Values → Values
  unquoted_all no_values = no_values
  unquoted_all (more v vs) = more (unquoted v) (unquoted_all vs)

-- No variable in the value, and only types that are registered.
unfoldable mutual
  pub can_copy : (ℕ → Bool) → Value → Bool
  can_copy r (value q b) = can_copy_body r b

  can_copy_body : (ℕ → Bool) → Body → Bool
  can_copy_body r vt_nil = true
  can_copy_body r vt_true = true
  can_copy_body r (vt_symbol s) = true
  can_copy_body r (vt_variable s) = false
  can_copy_body r (vt_number n) = true
  can_copy_body r (vt_string s) = true
  can_copy_body r (vt_list q vs) = can_copy_all r vs
  can_copy_body r (vt_function f) = true
  can_copy_body r (vt_userdata t p) = r t

  can_copy_all : (ℕ → Bool) → Values → Bool
  can_copy_all r no_values = true
  can_copy_all r (more v vs) = can_copy r v && can_copy_all r vs

module _ (r : ℕ → Bool) where
  abbrev Copies : Value → Type 0
  Copies v =
      can_copy r v ≡ true → (w : Value) × (duplicate_value r v ≡ some w) × (unquoted w ≡ unquoted v)

  abbrev CopiesAll : Values → Type 0
  CopiesAll vs =
      can_copy_all r vs ≡ true
      → (ws : Values) × (list_duplicate r vs ≡ some ws) × (unquoted_all ws ≡ unquoted_all vs)

  -- A value is a value's copy but for quotation.
  new_list_value-Copies :
      (q p : Bool) (vs : Values) → CopiesAll vs → Copies (value q (vt_list p vs))
  unfolding duplicate_value unquoted can_copy
  new_list_value-Copies q p vs c h =
      let (ws, e, u) = c h in
      (value false (vt_list false ws), rw e refl, ap (λ us. value false (vt_list false us)) u)

  mutual
    unfolding duplicate_value unquoted can_copy new_user_value

    copies : (v : Value) → Copies v
    copies (value q vt_nil) h = (_, refl, refl)
    copies (value q vt_true) h = (_, refl, refl)
    copies (value q (vt_symbol s)) h = (_, refl, refl)
    copies (value q (vt_variable s)) h = absurd (ground arith)
    copies (value q (vt_number n)) h = (_, refl, refl)
    copies (value q (vt_string s)) h = (_, refl, refl)
    copies (value q (vt_list p vs)) h = new_list_value-Copies q p vs (copies_all vs) h
    copies (value q (vt_function f)) h = (_, refl, refl)
    copies (value q (vt_userdata t p)) h = (value false (vt_userdata t p), rw h refl, refl)

    copies_all : (vs : Values) → CopiesAll vs
    copies_all no_values h = (_, refl, refl)
    copies_all (more v vs) h =
        let (w, e, u) = copies v (ground (arith, h)) in
        let (ws, es, us) = copies_all vs (ground (arith, h)) in
        (more w ws, rw (e, es) refl, rw (u, us) refl)

  -- `akl_duplicate_value` of a value that holds no variable and no unregistered type gives a value
  -- that differs from it in nothing but quotation.
  pub duplicate_value-unquoted :
      (v : Value)
      → can_copy r v ≡ true
      → (w : Value) × (duplicate_value r v ≡ some w) × (unquoted w ≡ unquoted v)
  duplicate_value-unquoted v h = copies v h
