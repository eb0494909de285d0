-- ===== src/Values/Compare.antt =====
-- `akl_compare_values` of src/aklisp.c.
use ak_lisp.Base.{
  ℕ, zero, suc, ◌+◌, ◌%◌, ◌^◌, Bool, true, false, Option, none, some, ◌≡◌, ◌≢◌, ap, arith, ◌==◌,
  ltb, if◌then◌else◌,
}
use ak_lisp.Values.{
  Body, Value, Values, value, no_values, more, vt_nil, vt_true, vt_symbol, vt_number, vt_string,
  vt_list, vt_userdata, Order, below, same, above, Library,
}

-- the 64 bits of a `long`, moved so that the order of the numbers is that of the longs
abbrev signed : ℕ → ℕ
signed n = (n + 2 ^ 63) % 2 ^ 64

unfoldable pub compare_numbers : ℕ → ℕ → Order
compare_numbers n1 n2 =
    if n1 == n2 then same else if ltb (signed n2) (signed n1) then above else below

abbrev has_next : Values → Bool
has_next no_values = false
has_next (more v no_values) = false
has_next (more v (more w vs)) = true

-- `akl_list_it_next`: the data, NULL at the end, and the place after it
abbrev it_next : Values → Option Value × Values
it_next no_values = (none, no_values)
it_next (more v vs) = (some v, vs)

-- The second iterator is never moved: both values are taken from the first.
abbrev next_first : Values → Option Value → Option Value × Values
next_first e1 v1 = if has_next e1 then it_next e1 else (v1, e1)

-- The loop is left at a difference.
abbrev unless_same : Option Order → Option Order → Option Order
unless_same none rest = none
unless_same (some below) rest = some below
unless_same (some above) rest = some above
unless_same (some same) rest = rest

abbrev Compare : Type 0
Compare = Option Value → Option Value → Option Order

-- The loop over two lists, `n` rounds at most. `v1` and `v2` are what it holds, at first NULL; `cmp`
-- compares elements.
compare_lists : Compare → ℕ → Values → Values → Option Value → Option Value → Option Order
compare_lists cmp zero e1 e2 v1 v2 = none
compare_lists cmp (suc n) e1 e2 v1 v2 =
    let (w1, e1') = next_first e1 v1 in
    let (w2, e1'') = if has_next e2 then it_next e1' else (v2, e1') in
    unless_same (cmp w1 w2) (compare_lists cmp n e1'' e2 w1 w2)

module _ (c : Library) where
  compare_bodies : Compare → ℕ → Body → Body → Option Order
  unfolding compare_lists
  compare_bodies cmp n (vt_number a) (vt_number b) =
      some (compare_numbers (c.to_long a) (c.to_long b))
  compare_bodies cmp n (vt_string a) (vt_string b) = some (c.strcmp a b)
  compare_bodies cmp n (vt_symbol a) (vt_symbol b) = some (compare_numbers a b)
  compare_bodies cmp n (vt_userdata a x) (vt_userdata b y) = some (compare_numbers a b)
  compare_bodies cmp n vt_nil vt_nil = some same
  compare_bodies cmp n vt_true vt_true = some same
  compare_bodies cmp n (vt_list q l1) (vt_list p l2) = compare_lists cmp n l1 l2 none none
  compare_bodies cmp n a b = some below

  -- `n` is the fuel; `none` is the want of it, or the failed assertion on a NULL.
  unfoldable pub compare_values : ℕ → Option Value → Option Value → Option Order
  unfolding compare_bodies
  compare_values zero v1 v2 = none
  compare_values (suc n) none v2 = none
  compare_values (suc n) (some v1) none = none
  compare_values (suc n) (some (value q b1)) (some (value p b2)) =
      compare_bodies (λ v w. compare_values n v w) n b1 b2

unless_same-ne-same : (o rest : Option Order) → rest ≢ some same → unless_same o rest ≢ some same
unless_same-ne-same none rest h = λ e. cc e
unless_same-ne-same (some below) rest h = λ e. cc e
unless_same-ne-same (some above) rest h = λ e. cc e
unless_same-ne-same (some same) rest h = h

compare_lists-ne-same :
    (cmp : Compare) (n : ℕ) (e1 e2 : Values) (v1 v2 : Option Value)
    → compare_lists cmp n e1 e2 v1 v2 ≢ some same
unfolding compare_lists
compare_lists-ne-same cmp zero e1 e2 v1 v2 = λ e. cc e
compare_lists-ne-same cmp (suc n) e1 e2 v1 v2 =
    let (w1, e1') = next_first e1 v1 in
    let (w2, e1'') = if has_next e2 then it_next e1' else (v2, e1') in
    unless_same-ne-same (cmp w1 w2) _ (compare_lists-ne-same cmp n e1'' e2 w1 w2)

-- No two lists compare as the same, not even a list with itself: the loop over lists ends only at a
-- difference, at a NULL, or never.
pub compare_values-lists :
    (c : Library) (n : ℕ) (q p quoted1 quoted2 : Bool) (l1 l2 : Values)
    → compare_values c n (some (value q (vt_list quoted1 l1))) (some (value p (vt_list quoted2 l2)))
      ≢ some same
unfolding compare_values
compare_values-lists c zero q p a b l1 l2 = λ e. cc e
compare_values-lists c (suc n) q p a b l1 l2 =
    compare_lists-ne-same (λ v w. compare_values c n v w) n l1 l2 none none

-- Two numbers compare by the integers that the casts to `long` leave of them.
pub compare_values-numbers :
    (c : Library) (n : ℕ) (q p : Bool) (a b : ℕ)
    → c.to_long a ≡ c.to_long b
    → compare_values c (suc n) (some (value q (vt_number a))) (some (value p (vt_number b)))
      ≡ some same
unfolding compare_values compare_numbers
compare_values-numbers c n q p a b e = ap some (ground (arith, e))
