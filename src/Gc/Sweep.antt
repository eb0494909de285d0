-- ===== src/Gc/Sweep.antt =====
-- The markers of src/gc.c and `akl_gc_sweep`. A marker writes the mark of its object and of what the
-- object holds, in whatever pools these are.
pub mod Shrinks
pub mod Marks
pub mod Freed
mod Tests
use ak_lisp.Base.{
  ℕ, zero, suc, ◌+◌, Bool, true, false, none, some, List, [], ◌∷◌, length, if◌then◌else◌,
}
use ak_lisp.Gc.Pool.{in_use, clear_use, pool_size}
use ak_lisp.Gc.Types.{
  Place, Marker, mark_value, mark_variable, mark_list, mark_list_entry, mark_function, mark_udata,
  no_marker, Object, value_object, variable_object, list_object, entry_object, other_object, Gc,
  type_of, pool_of, set_pool, is_marked, set_mark,
}

-- The numbers of the base types, in the order in which `akl_gc_init` registers them.
abbrev pub value_type : ℕ
value_type = 0

abbrev pub list_type : ℕ
list_type = 2

abbrev pub entry_type : ℕ
entry_type = 3

-- The mark of the list that a value holds.
abbrev pub with_list : Bool → Object → Gc → Gc
with_list m (value_object (some l)) g = set_mark m list_type l g
with_list m (value_object none) g = g
with_list m (variable_object v) g = g
with_list m (list_object es) g = g
with_list m (entry_object v) g = g
with_list m other_object g = g

-- `akl_gc_mark_value`: the list of the value, not what is in it, and the value.
unfoldable pub on_value : Bool → ℕ → Place → Gc → Gc
on_value m tid o g = set_mark m tid o (with_list m (g.objects tid o) g)

-- The value that an entry or a variable holds.
abbrev pub with_held : Bool → Object → Gc → Gc
with_held m (entry_object (some v)) g = on_value m value_type v g
with_held m (entry_object none) g = g
with_held m (variable_object (some v)) g = on_value m value_type v g
with_held m (variable_object none) g = g
with_held m (value_object l) g = g
with_held m (list_object es) g = g
with_held m other_object g = g

-- `akl_gc_mark_list_entry`, with the marker of values for what the entry holds
unfoldable pub on_entry : Bool → ℕ → Place → Gc → Gc
on_entry m tid o g = with_held m (g.objects tid o) (set_mark m tid o g)

-- `akl_gc_mark_variable`
unfoldable pub on_variable : Bool → ℕ → Place → Gc → Gc
on_variable m tid o g = with_held m (g.objects tid o) (set_mark m tid o g)

-- The loop of `akl_gc_mark_list`.
pub on_entries : Bool → List Place → Gc → Gc
on_entries m [] g = g
on_entries m (e ∷ es) g = on_entries m es (on_entry m entry_type e g)

abbrev pub with_entries : Bool → Object → Gc → Gc
with_entries m (list_object es) g = on_entries m es g
with_entries m (value_object l) g = g
with_entries m (variable_object v) g = g
with_entries m (entry_object v) g = g
with_entries m other_object g = g

-- `akl_gc_mark_list`
unfoldable pub on_list : Bool → ℕ → Place → Gc → Gc
on_list m tid o g = set_mark m tid o (with_entries m (g.objects tid o) g)

-- `t->gt_marker_fn(s, obj, m)`; the markers of functions and of user data do nothing.
unfoldable pub mark_object : Marker → Bool → ℕ → Place → Gc → Gc
mark_object mark_value m tid o g = on_value m tid o g
mark_object mark_variable m tid o g = on_variable m tid o g
mark_object mark_list m tid o g = on_list m tid o g
mark_object mark_list_entry m tid o g = on_entry m tid o g
mark_object mark_function m tid o g = g
mark_object mark_udata m tid o g = g
mark_object no_marker m tid o g = g

-- One round of the loop of `akl_gc_sweep_pool`. A marked object goes to the marker of its type, which
-- unmarks it and what it holds; a slot whose object is not marked is free again.
unfoldable pub sweep_slot : Marker → ℕ → Place → Gc → Gc
sweep_slot f tid (k, i) g =
    if in_use (pool_of g tid k) i
    then if is_marked g tid (k, i)
      then mark_object f false tid (k, i) g
      else set_pool g tid k (clear_use (pool_of g tid k) i)
    else g

-- The loop: `n` slots from slot `i` on.
pub sweep_slots : Marker → ℕ → ℕ → ℕ → ℕ → Gc → Gc
sweep_slots f tid k zero i g = g
sweep_slots f tid k (suc n) i g = sweep_slots f tid k n (i + 1) (sweep_slot f tid (k, i) g)

-- `akl_gc_sweep_pool`, called again for the next pool: `n` pools from pool `k` on.
pub sweep_pools : Marker → ℕ → ℕ → ℕ → Gc → Gc
unfolding sweep_slots
sweep_pools f tid zero k g = g
sweep_pools f tid (suc n) k g = sweep_pools f tid n (k + 1) (sweep_slots f tid k pool_size 0 g)

abbrev pub has_marker : Marker → Bool
has_marker no_marker = false
has_marker mark_value = true
has_marker mark_variable = true
has_marker mark_list = true
has_marker mark_list_entry = true
has_marker mark_function = true
has_marker mark_udata = true

-- Without a marker `akl_gc_sweep_pool` returns at once.
unfoldable pub sweep_type : ℕ → Gc → Gc
unfolding sweep_pools
sweep_type tid g =
    let t = type_of g tid in
    if has_marker t.gt_marker_fn then sweep_pools t.gt_marker_fn tid (length t.pools) 0 g else g

-- The loop of `akl_gc_sweep`: `n` types from type `tid` on.
pub sweep_types : ℕ → ℕ → Gc → Gc
sweep_types zero tid g = g
sweep_types (suc n) tid g = sweep_types n (tid + 1) (sweep_type tid g)

unfoldable pub sweep_all : Gc → Gc
unfolding sweep_types
sweep_all g = if g.use_gc then sweep_types (length g.types) 0 g else g
