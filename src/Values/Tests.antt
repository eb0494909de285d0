-- ===== src/Values/Tests.antt =====
-- The theorems on values at concrete data.
use ak_lisp.Base.{true, false, none, some, [], ◌≡◌, ◌≢◌, refl}
use ak_lisp.Values.{
  Value, Values, value, no_values, more, vt_symbol, vt_list, vt_userdata, same, Library,
}
use ak_lisp.Values.Copy.{duplicate_value, unquoted, can_copy, duplicate_value-unquoted}
use ak_lisp.Values.Compare.{compare_values, compare_values-lists}

abbrev library : Library
library = record {
  atof = λ s. 0;
  format_g = λ n. [];
  sym_name = λ s. none;
  intern = λ s. 0;
  strcmp = λ s t. same;
  to_long = λ n. n;
}

abbrev two_items : Values
two_items = more (value true (vt_symbol 4)) (more (value false (vt_userdata 2 9)) no_values)

abbrev quoted_list : Value
quoted_list = value true (vt_list true two_items)

duplicate_value-unquoted_example :
    (w : Value) × (duplicate_value (λ t. true) quoted_list ≡ some w)
    × (unquoted w ≡ unquoted quoted_list)
unfolding can_copy
duplicate_value-unquoted_example = duplicate_value-unquoted (λ t. true) quoted_list refl

compare_values-lists_example :
    compare_values library 9 (some quoted_list) (some quoted_list) ≢ some same
compare_values-lists_example =
    compare_values-lists library 9 true true true true two_items two_items
