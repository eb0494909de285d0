-- ===== src/Gc/Sweep/Marks.antt =====
-- The markers of src/gc.c with FALSE only clear marks, and the sweep only clears marks and frees slots.
use ak_lisp.Base.{
  ℕ, zero, suc, ◌+◌, ◌≤◌, ◌<◌, false, none, some, List, [], ◌∷◌, arith, length, Bool-cases, inl,
  inr,
}
use ak_lisp.Gc.Pool.{in_use, clear_use, pool_size}
use ak_lisp.Gc.Types.{
  Place, Marker, mark_value, mark_variable, mark_list, mark_list_entry, mark_function, mark_udata,
  no_marker, Object, value_object, variable_object, list_object, entry_object, other_object, Gc,
  type_of, pool_of, is_marked,
}
use ak_lisp.Gc.Sweep.{
  value_type, list_type, entry_type, with_list, on_value, with_held, on_entry, on_variable,
  on_entries, with_entries, on_list, mark_object, sweep_slot, sweep_slots, sweep_pools, has_marker,
  sweep_type, sweep_types,
}
use ak_lisp.Gc.Sweep.Shrinks.{
  Shrinks, Shrinks-refl, Shrinks-trans, set_pool-Shrinks, set_mark-Shrinks, clear_use-Less,
}

with_list-Shrinks : (x : Object) (g : Gc) → Shrinks g (with_list false x g)
with_list-Shrinks (value_object (some l)) g = set_mark-Shrinks list_type l g
with_list-Shrinks (value_object none) g = Shrinks-refl g
with_list-Shrinks (variable_object v) g = Shrinks-refl g
with_list-Shrinks (list_object es) g = Shrinks-refl g
with_list-Shrinks (entry_object v) g = Shrinks-refl g
with_list-Shrinks other_object g = Shrinks-refl g

on_value-Shrinks : (tid : ℕ) (o : Place) (g : Gc) → Shrinks g (on_value false tid o g)
unfolding on_value
on_value-Shrinks tid o g =
    Shrinks-trans (with_list-Shrinks (g.objects tid o) g) (set_mark-Shrinks tid o _)

with_held-Shrinks : (x : Object) (g : Gc) → Shrinks g (with_held false x g)
with_held-Shrinks (entry_object (some v)) g = on_value-Shrinks value_type v g
with_held-Shrinks (entry_object none) g = Shrinks-refl g
with_held-Shrinks (variable_object (some v)) g = on_value-Shrinks value_type v g
with_held-Shrinks (variable_object none) g = Shrinks-refl g
with_held-Shrinks (value_object l) g = Shrinks-refl g
with_held-Shrinks (list_object es) g = Shrinks-refl g
with_held-Shrinks other_object g = Shrinks-refl g

on_entry-Shrinks : (tid : ℕ) (o : Place) (g : Gc) → Shrinks g (on_entry false tid o g)
unfolding on_entry
on_entry-Shrinks tid o g =
    Shrinks-trans (set_mark-Shrinks tid o g) (with_held-Shrinks (g.objects tid o) _)

on_variable-Shrinks : (tid : ℕ) (o : Place) (g : Gc) → Shrinks g (on_variable false tid o g)
unfolding on_variable
on_variable-Shrinks tid o g =
    Shrinks-trans (set_mark-Shrinks tid o g) (with_held-Shrinks (g.objects tid o) _)

on_entries-Shrinks : (es : List Place) (g : Gc) → Shrinks g (on_entries false es g)
unfolding on_entries
on_entries-Shrinks [] g = Shrinks-refl g
on_entries-Shrinks (e ∷ es) g =
    Shrinks-trans (on_entry-Shrinks entry_type e g) (on_entries-Shrinks es _)

with_entries-Shrinks : (x : Object) (g : Gc) → Shrinks g (with_entries false x g)
with_entries-Shrinks (list_object es) g = on_entries-Shrinks es g
with_entries-Shrinks (value_object l) g = Shrinks-refl g
with_entries-Shrinks (variable_object v) g = Shrinks-refl g
with_entries-Shrinks (entry_object v) g = Shrinks-refl g
with_entries-Shrinks other_object g = Shrinks-refl g

on_list-Shrinks : (tid : ℕ) (o : Place) (g : Gc) → Shrinks g (on_list false tid o g)
unfolding on_list
on_list-Shrinks tid o g =
    Shrinks-trans (with_entries-Shrinks (g.objects tid o) g) (set_mark-Shrinks tid o _)

mark_object-Shrinks :
    (f : Marker) (tid : ℕ) (o : Place) (g : Gc) → Shrinks g (mark_object f false tid o g)
unfolding mark_object
mark_object-Shrinks mark_value tid o g = on_value-Shrinks tid o g
mark_object-Shrinks mark_variable tid o g = on_variable-Shrinks tid o g
mark_object-Shrinks mark_list tid o g = on_list-Shrinks tid o g
mark_object-Shrinks mark_list_entry tid o g = on_entry-Shrinks tid o g
mark_object-Shrinks mark_function tid o g = Shrinks-refl g
mark_object-Shrinks mark_udata tid o g = Shrinks-refl g
mark_object-Shrinks no_marker tid o g = Shrinks-refl g

pub sweep_slot-Shrinks :
    (f : Marker) (tid k i : ℕ) (g : Gc) → i < pool_size → Shrinks g (sweep_slot f tid (k, i) g)
unfolding sweep_slot
sweep_slot-Shrinks f tid k i g h = elim (Bool-cases (in_use (pool_of g tid k) i)) [
  | inr free ↦ rw free (Shrinks-refl g)
  | inl busy ↦ elim (Bool-cases (is_marked g tid (k, i))) [
    | inl live ↦ rw (busy, live) (mark_object-Shrinks f tid (k, i) g)
    | inr dead ↦
        rw (busy, dead)
          (set_pool-Shrinks g tid k (clear_use (pool_of g tid k) i)
            (clear_use-Less (pool_of g tid k) i h))
  ]
]

pub sweep_slots-Shrinks :
    (f : Marker) (tid k n i : ℕ) (g : Gc)
    → i + n ≤ pool_size
    → Shrinks g (sweep_slots f tid k n i g)
unfolding sweep_slots
sweep_slots-Shrinks f tid k zero i g h = Shrinks-refl g
sweep_slots-Shrinks f tid k (suc n) i g h =
    Shrinks-trans (sweep_slot-Shrinks f tid k i g (omega arith))
      (sweep_slots-Shrinks f tid k n (i + 1) _ (omega arith))

pub sweep_pools-Shrinks : (f : Marker) (tid n k : ℕ) (g : Gc) → Shrinks g (sweep_pools f tid n k g)
unfolding sweep_pools
sweep_pools-Shrinks f tid zero k g = Shrinks-refl g
sweep_pools-Shrinks f tid (suc n) k g =
    Shrinks-trans (sweep_slots-Shrinks f tid k pool_size 0 g (omega arith))
      (sweep_pools-Shrinks f tid n (k + 1) _)

pub sweep_type-Shrinks : (tid : ℕ) (g : Gc) → Shrinks g (sweep_type tid g)
unfolding sweep_type
sweep_type-Shrinks tid g = elim (Bool-cases (has_marker (type_of g tid).gt_marker_fn)) [
  | inl some_fn ↦
      rw some_fn
        (sweep_pools-Shrinks (type_of g tid).gt_marker_fn tid (length (type_of g tid).pools) 0 g)
  | inr null ↦ rw null (Shrinks-refl g)
]

pub sweep_types-Shrinks : (n tid : ℕ) (g : Gc) → Shrinks g (sweep_types n tid g)
unfolding sweep_types
sweep_types-Shrinks zero tid g = Shrinks-refl g
sweep_types-Shrinks (suc n) tid g =
    Shrinks-trans (sweep_type-Shrinks tid g) (sweep_types-Shrinks n (tid + 1) _)
