-- ===== src/Gc/Sweep/Tests.antt =====
-- Runs of the sweep, and its theorem at a concrete state.
use ak_lisp.Base.{
  ◌≡◌, refl, Bool, true, false, none, some, List, [], ◌∷◌, arith, length, get_or, replicate,
}
use ak_lisp.Gc.Word.{clear_bit, is_bit_set}
use ak_lisp.Gc.Pool.{Pool, in_use, clear_use}
use ak_lisp.Gc.Pool.Bits.{IsMap}
use ak_lisp.Gc.Pool.HaveFree.{below_two}
use ak_lisp.Gc.Types.{
  Marker, mark_value, mark_variable, mark_list, mark_list_entry, Object, value_object, list_object,
  entry_object, other_object, GcType, Gc, pool_of, is_marked, set_mark,
}
use ak_lisp.Gc.Sweep.{
  on_value, on_entry, on_entries, on_list, mark_object, sweep_slot, sweep_type, sweep_all,
}
use ak_lisp.Gc.Sweep.Freed.{HasPool, sweep_all-freed}

-- The first two slots are in use; the objects of `marks` are marked.
abbrev two_used : List Bool → Pool
two_used marks = record {
  count = 2;
  freemap = (true ∷ true ∷ replicate 30 false) ∷ replicate 32 false ∷ [];
  marks = marks;
}

two_used-IsMap : (marks : List Bool) → IsMap (two_used marks)
two_used-IsMap marks = record {
  words = refl;
  bits = λ k l. below_two (λ k. length (get_or (two_used []).freemap k [])) 32 refl refl k l;
}

abbrev of_type : Marker → List Pool → GcType
of_type f ps = record { gt_marker_fn = f; pools = ps }

-- Two values without a list, the first one marked.
abbrev values : Gc
values = record {
  use_gc = true;
  last_was_mark = false;
  types = of_type mark_value (two_used (true ∷ replicate 63 false) ∷ []) ∷ [];
  objects = λ tid o. value_object none;
}

values-HasPool : HasPool values 0 0
values-HasPool = record {
  known = omega arith;
  within = omega arith;
  map = two_used-IsMap (true ∷ replicate 63 false);
}

second_freed : in_use (pool_of (sweep_all values) 0 0) 1 ≡ false
unfolding sweep_all sweep_type sweep_slot in_use is_bit_set is_marked mark_object on_value set_mark
    clear_use clear_bit
second_freed = refl

first_used : in_use (pool_of (sweep_all values) 0 0) 0 ≡ true
unfolding sweep_all sweep_type sweep_slot in_use is_bit_set is_marked mark_object on_value set_mark
    clear_use clear_bit
first_used = refl

sweep_all-freed_example :
    (in_use (pool_of values 0 0) 0 ≡ true) × (is_marked values 0 (0, 0) ≡ true)
sweep_all-freed_example = sweep_all-freed 0 0 0 (omega arith) refl values-HasPool refl first_used

-- What the objects of each type hold: the list has one entry, with a value that is the list in slot 1.
abbrev held : List Object
held =
    value_object (some (0, 1))
    ∷ other_object
    ∷ list_object ((0, 0) ∷ [])
    ∷ entry_object (some (0, 0))
    ∷ []

-- The list in slot 0 holds the list in slot 1; both are marked.
abbrev nested : Gc
nested = record {
  use_gc = true;
  last_was_mark = false;
  types =
      of_type mark_value []
      ∷ of_type mark_variable []
      ∷ of_type mark_list (two_used (true ∷ true ∷ replicate 62 false) ∷ [])
      ∷ of_type mark_list_entry []
      ∷ [];
  objects = λ tid o. get_or held tid other_object;
}

-- The sweep of the outer list unmarks the inner one, whose slot is then freed although it was marked.
nested-freed : in_use (pool_of (sweep_all nested) 2 0) 1 ≡ false
unfolding sweep_all sweep_type sweep_slot in_use is_bit_set is_marked mark_object on_list on_entries
    on_entry on_value set_mark clear_use clear_bit
nested-freed = refl
