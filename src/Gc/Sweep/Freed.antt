-- ===== src/Gc/Sweep/Freed.antt =====
-- What `akl_gc_sweep` of src/gc.c leaves in use.
use mathlib.Core.Path.{subst}
use ak_lisp.Base.{
  ℕ, zero, suc, ◌+◌, ◌≤◌, ◌<◌, ◌≡◌, ap, ◌∙◌, true, arith, length, get_or, get_or-set_self, ◌==◌,
  Bool-cases, inl, inr, if◌then◌else◌,
}
use ak_lisp.Gc.Pool.{Pool, in_use, clear_use, pool_size}
use ak_lisp.Gc.Pool.Bits.{IsMap, in_use-clear_use}
use ak_lisp.Gc.Types.{Marker, GcType, Gc, no_pool, no_type, type_of, pool_of, set_pool, is_marked}
use ak_lisp.Gc.Sweep.{
  sweep_slot, sweep_slots, sweep_pools, has_marker, sweep_type, sweep_types, sweep_all,
}
use ak_lisp.Gc.Sweep.Shrinks.{Shrinks}
use ak_lisp.Gc.Sweep.Marks.{
  sweep_slot-Shrinks, sweep_slots-Shrinks, sweep_pools-Shrinks, sweep_type-Shrinks,
  sweep_types-Shrinks,
}

-- The type is registered, and has pool number `k` with a map for its slots.
pub record HasPool (g : Gc) (tid k : ℕ) : Type 0 where
  pub known : tid < length g.types
  pub within : k < length (type_of g tid).pools
  pub map : IsMap (pool_of g tid k)

HasPool-Shrinks : {g h : Gc} (tid k : ℕ) → Shrinks g h → HasPool g tid k → HasPool h tid k
HasPool-Shrinks tid k s w = record {
  known = omega (arith, s.types, w.known);
  within = omega (arith, s.pools tid, w.within);
  map = (s.each tid k).map w.map;
}

still_used :
    {g h : Gc} (tid k j : ℕ)
    → Shrinks g h
    → HasPool g tid k
    → j < pool_size
    → in_use (pool_of h tid k) j ≡ true
    → in_use (pool_of g tid k) j ≡ true
still_used tid k j s w l u = (s.each tid k).used j l w.map u

was_marked :
    {g h : Gc} (tid k j : ℕ)
    → Shrinks g h
    → is_marked h tid (k, j) ≡ true
    → is_marked g tid (k, j) ≡ true
unfolding is_marked
was_marked tid k j s u = (s.each tid k).marks j u

pool_of-set_pool :
    {g : Gc} (tid k : ℕ) (p : Pool) → HasPool g tid k → pool_of (set_pool g tid k p) tid k ≡ p
pool_of-set_pool {g} tid k p w =
    ap (λ (x : GcType). get_or x.pools k no_pool) (get_or-set_self g.types tid _ no_type w.known)
    ∙ get_or-set_self (type_of g tid).pools k p no_pool w.within

module _ (f : Marker) (tid : ℕ) where
  slot-freed :
      {g : Gc} (k i : ℕ)
      → HasPool g tid k
      → i < pool_size
      → in_use (pool_of (sweep_slot f tid (k, i) g) tid k) i ≡ true
      → is_marked g tid (k, i) ≡ true
  unfolding sweep_slot
  slot-freed {g} k i w l u = elim (Bool-cases (is_marked g tid (k, i))) [
    | inl live ↦ live
    | inr dead ↦
        let busy : in_use (pool_of g tid k) i ≡ true =
          still_used tid k i (sweep_slot-Shrinks f tid k i g l) w l u in
        let new = pool_of-set_pool tid k (clear_use (pool_of g tid k) i) w in
        let u' : in_use (clear_use (pool_of g tid k) i) i ≡ true = rw (busy, dead, new) at u in
        ground (arith, in_use-clear_use w.map i i l l, u')
  ]

  slots-freed :
      (k n i j : ℕ) {g : Gc}
      → HasPool g tid k
      → i + n ≤ pool_size
      → i ≤ j
      → j < i + n
      → in_use (pool_of (sweep_slots f tid k n i g) tid k) j ≡ true
      → is_marked g tid (k, j) ≡ true
  unfolding sweep_slots
  slots-freed k zero i j w h lo hi u = absurd (omega arith)
  slots-freed k (suc n) i j {g} w h lo hi u =
      let once = sweep_slot-Shrinks f tid k i g (omega arith) in
      let w' = HasPool-Shrinks tid k once w in
      elim (Bool-cases (i == j)) [
        | inl same ↦
            let e : i ≡ j = ground arith in
            let rest =
              sweep_slots-Shrinks f tid k n (i + 1) (sweep_slot f tid (k, i) g) (omega arith) in
            rw (← e) (
              slot-freed k i w (omega arith)
                (still_used tid k i rest w' (omega arith) (rw (← e) at u)))
        | inr apart ↦
            was_marked tid k j once
              (slots-freed k n (i + 1) j w' (omega arith) (ground arith) (omega arith) u)
      ]

  pools-freed :
      (n k k' j : ℕ) {g : Gc}
      → HasPool g tid k'
      → k ≤ k'
      → k' < k + n
      → j < pool_size
      → in_use (pool_of (sweep_pools f tid n k g) tid k') j ≡ true
      → is_marked g tid (k', j) ≡ true
  unfolding sweep_pools
  pools-freed zero k k' j w lo hi l u = absurd (omega arith)
  pools-freed (suc n) k k' j {g} w lo hi l u =
      let once = sweep_slots-Shrinks f tid k pool_size 0 g (omega arith) in
      let w' = HasPool-Shrinks tid k' once w in
      elim (Bool-cases (k == k')) [
        | inl same ↦
            let e : k ≡ k' = ground arith in
            let rest = sweep_pools-Shrinks f tid n (k + 1) (sweep_slots f tid k pool_size 0 g) in
            let u' = still_used tid k' j rest w' l u in
            slots-freed k' pool_size 0 j w (omega arith) (omega arith) (omega arith) (rw e at u')
        | inr apart ↦
            was_marked tid k' j once
              (pools-freed n (k + 1) k' j w' (ground arith) (omega arith) l u)
      ]

module _ (tid k j : ℕ) (l : j < pool_size) where
  type-freed :
      {g : Gc}
      → HasPool g tid k
      → has_marker (type_of g tid).gt_marker_fn ≡ true
      → in_use (pool_of (sweep_type tid g) tid k) j ≡ true
      → is_marked g tid (k, j) ≡ true
  unfolding sweep_type
  type-freed {g} w some_fn u =
      pools-freed (type_of g tid).gt_marker_fn tid (length (type_of g tid).pools) 0 k j w
        (omega arith) (omega (arith, w.within)) l (rw some_fn at u)

  types-freed :
      (n t : ℕ) {g : Gc}
      → HasPool g tid k
      → has_marker (type_of g tid).gt_marker_fn ≡ true
      → t ≤ tid
      → tid < t + n
      → in_use (pool_of (sweep_types n t g) tid k) j ≡ true
      → is_marked g tid (k, j) ≡ true
  unfolding sweep_types
  types-freed zero t w some_fn lo hi u = absurd (omega arith)
  types-freed (suc n) t {g} w some_fn lo hi u =
      let once = sweep_type-Shrinks t g in
      let w' = HasPool-Shrinks tid k once w in
      elim (Bool-cases (t == tid)) [
        | inl same ↦
            let e : t ≡ tid = ground arith in
            let u' = still_used tid k j (sweep_types-Shrinks n (t + 1) (sweep_type t g)) w' l u in
            type-freed w some_fn (rw e at u')
        | inr apart ↦ was_marked tid k j once (
            types-freed n (t + 1) w' (ap has_marker (once.markers tid) ∙ some_fn) (ground arith)
              (omega arith) u)
      ]

  -- With the collector on, take a slot below 64 of a pool of a registered type that has a marker. When
  -- the slot is in use after akl_gc_sweep, it was in use before, and its object was marked before: no
  -- other slot survives, whatever the markers clear on the way.
  pub sweep_all-freed :
      {g : Gc}
      → g.use_gc ≡ true
      → HasPool g tid k
      → has_marker (type_of g tid).gt_marker_fn ≡ true
      → in_use (pool_of (sweep_all g) tid k) j ≡ true
      → (in_use (pool_of g tid k) j ≡ true) × (is_marked g tid (k, j) ≡ true)
  unfolding sweep_all
  sweep_all-freed {g} on w some_fn u =
      let u' : in_use (pool_of (sweep_types (length g.types) 0 g) tid k) j ≡ true =
        subst
          (λ b. in_use (pool_of (if b then sweep_types (length g.types) 0 g else g) tid k) j ≡ true)
          on u in
      (
        still_used tid k j (sweep_types-Shrinks (length g.types) 0 g) w l u',
        types-freed (length g.types) 0 w some_fn (omega arith) (omega (arith, w.known)) u',
      )
