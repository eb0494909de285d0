-- ===== src/Gc/Alloc/Packed.antt =====
-- Allocation while the collector is off, as `akl_gc_init` leaves it: slots are handed out in
-- order, and none is handed out twice.
use mathlib.Core.Path.{◌∙◌, sym, subst}
use ak_lisp.Base.{
  ℕ, zero, suc, ◌+◌, ◌-◌, ◌*◌, ◌/◌, ◌%◌, ◌≤◌, ◌<◌, ◌≡◌, refl, ap, false, true, none, some, List, [],
  ◌∷◌, ◌++◌, arith, length, get_or, set, get_or-set, get_or-replicate, get_or-append_self,
  set-append_self, Bool-cases, inl, inr, Option-cases, ltb, replicate,
}
use ak_lisp.Gc.Word.{Word, is_bit_set, bits_in_uint}
use ak_lisp.Gc.Pool.{Pool, in_use, use_slot, pool_use, have_free, find_free, create, pool_size}
use ak_lisp.Gc.Pool.Bits.{IsMap, in_use-use_slot, use_slot-IsMap}
use ak_lisp.Gc.Pool.HaveFree.{have_free-eq_false, below_two}
use ak_lisp.Gc.Types.{Place, Marker, GcType, Gc, no_pool, no_type, type_of, set_type}
use ak_lisp.Gc.Alloc.{type_have_free, gc_malloc, use_place, add_pool, earlier_free}

-- The first `count` slots of the pool are in use, and no other.
pub record IsPacked (p : Pool) : Type 0 where
  pub map : IsMap p
  pub room : p.count ≤ pool_size
  pub filled : (j : ℕ) → j < pool_size → in_use p j ≡ ltb j p.count

count-use_slot : (p : Pool) (i : ℕ) → p.count ≤ pool_size → (use_slot p i).count ≡ p.count + 1
unfolding use_slot
count-use_slot p i h = omega arith

-- Taking the next slot keeps a pool packed.
use_slot-IsPacked : {p : Pool} → IsPacked p → p.count < pool_size → IsPacked (use_slot p p.count)
use_slot-IsPacked {p} w h = record {
  map = use_slot-IsMap w.map p.count h;
  room = omega (arith, count-use_slot p p.count w.room);
  filled = λ j k.
      ground
        (arith, in_use-use_slot w.map p.count j h k, w.filled j k, count-use_slot p p.count w.room);
}

-- A packed pool has a free slot exactly when fewer than 64 are counted.
have_free-IsPacked : {p : Pool} → IsPacked p → have_free p ≡ ltb p.count pool_size
have_free-IsPacked {p} w = elim (Bool-cases (have_free p)) [
  | inr full ↦
      let taken = (have_free-eq_false w.map).0 full in
      elim (Bool-cases (ltb p.count pool_size)) [
        | inl less ↦ ground (arith, taken p.count, w.filled p.count)
        | inr all ↦ full ∙ sym all
      ]
  | inl room ↦ elim (Bool-cases (ltb p.count pool_size)) [
    | inl less ↦ room ∙ sym less
    | inr all ↦ let full = (have_free-eq_false w.map).1 (λ j k. ground (arith, w.filled j k)) in cc
  ]
]

find_free-IsPacked : {p : Pool} → IsPacked p → p.count < pool_size → find_free p ≡ some p.count
unfolding find_free
find_free-IsPacked {p} w h = ground (arith, w.filled p.count)

-- The pools of a type: all are packed, and all before the last are full.
abbrev pub ArePacked : List Pool → Type 0
ArePacked [] = Unit {0}
ArePacked (p ∷ []) = IsPacked p
ArePacked (p ∷ q ∷ ps) = IsPacked p × (p.count ≡ pool_size) × ArePacked (q ∷ ps)

-- how many slots are in use
abbrev pub total : List Pool → ℕ
total [] = 0
total (p ∷ ps) = p.count + total ps

-- Facts about the last pool of `p ∷ ps`, which has index `length ps`.
last-IsPacked :
    (p : Pool) (ps : List Pool)
    → ArePacked (p ∷ ps)
    → IsPacked (get_or (p ∷ ps) (length ps) no_pool)
last-IsPacked p [] w = w
last-IsPacked p (q ∷ ps) w = last-IsPacked q ps w.2

last_total :
    (p : Pool) (ps : List Pool)
    → ArePacked (p ∷ ps)
    → total (p ∷ ps) ≡ pool_size * length ps + (get_or (p ∷ ps) (length ps) no_pool).count
last_total p [] w = omega arith
last_total p (q ∷ ps) w = omega (arith, last_total q ps w.2, w.1)

-- No pool before the last has a free slot.
earlier_free-none :
    (p : Pool) (ps : List Pool) (k ind : ℕ)
    → ArePacked (p ∷ ps)
    → earlier_free (p ∷ ps) k ind ≡ none
unfolding earlier_free
earlier_free-none p [] k ind w = refl
earlier_free-none p (q ∷ ps) k ind w =
    ground (arith, have_free-IsPacked w.0, w.1, earlier_free-none q ps (k + 1) ind w.2)

-- Taking the next slot of the last pool.
take_last :
    (p : Pool) (ps : List Pool) (l : Pool)
    → get_or (p ∷ ps) (length ps) no_pool ≡ l
    → ArePacked (p ∷ ps)
    → l.count < pool_size
    → let ps' = set (p ∷ ps) (length ps) (use_slot l l.count) in
      ArePacked ps' × (total ps' ≡ total (p ∷ ps) + 1)
take_last p [] l e w h =
    let packed : IsPacked l = rw (← e) w in
    (
      use_slot-IsPacked packed h,
      omega (arith, count-use_slot l l.count packed.room, ap (λ (x : Pool). x.count) e),
    )
take_last p (q ∷ []) l e w h =
    let rest = take_last q [] l e w.2 h in ((w.0, w.1, rest.0), omega (arith, rest.1))
take_last p (q ∷ r ∷ ps) l e w h =
    let rest = take_last q (r ∷ ps) l e w.2 h in ((w.0, w.1, rest.0), omega (arith, rest.1))

-- A new pool behind full ones.
add_packed :
    (p : Pool) (ps : List Pool) (n : Pool)
    → ArePacked (p ∷ ps)
    → (get_or (p ∷ ps) (length ps) no_pool).count ≡ pool_size
    → IsPacked n
    → ArePacked ((p ∷ ps) ++ (n ∷ []))
add_packed p [] n w e h = (w, e, h)
add_packed p (q ∷ ps) n w e h = (w.0, w.1, add_packed q ps n w.2 e h)

total-append : (ps : List Pool) (n : Pool) → total (ps ++ (n ∷ [])) ≡ total ps + n.count
total-append [] n = omega arith
total-append (p ∷ ps) n = omega (arith, total-append ps n)

-- Memory that the system hands out cleared.
abbrev pub zero_map : List Word
zero_map = replicate 32 false ∷ replicate 32 false ∷ []

zero_bits : (k i : ℕ) → get_or (get_or zero_map k []) i false ≡ false
zero_bits zero i = get_or-replicate 32 i false
zero_bits (suc zero) i = get_or-replicate 32 i false
zero_bits (suc (suc k)) i = refl

create-IsPacked : IsPacked (create zero_map)
unfolding create in_use is_bit_set
create-IsPacked = record {
  map = record {
    words = refl;
    bits = λ k l. below_two (λ k. length (get_or zero_map k [])) 32 refl refl k l;
  };
  room = omega arith;
  filled = λ j k. zero_bits (j / bits_in_uint) (j % bits_in_uint) ∙ ground arith;
}

count-create : (fresh : List Word) → (create fresh).count ≡ 0
unfolding create
count-create fresh = refl

-- What a request has to do to the pools of its type: it takes slot number `total`, and no other.
pub record Takes (old : List Pool) (place : Place) (new : List Pool) : Type 0 where
  pub packed : ArePacked new
  pub next : pool_size * place.0 + place.1 ≡ total old
  pub slot : place.1 < pool_size
  pub counted : total new ≡ total old + 1

first_slot : {p : Pool} → IsPacked p → p.count ≡ 0 → IsPacked (use_slot p 0)
first_slot {p} w e = subst (λ n. IsPacked (use_slot p n)) e (use_slot-IsPacked w (omega arith))

-- Adding a pool and taking its first slot.
use-add_pool :
    (ps : List Pool) (c : Pool)
    → let qs = ps ++ (c ∷ []) in
      set qs (length ps) (use_slot (get_or qs (length ps) no_pool) 0) ≡ ps ++ (use_slot c 0 ∷ [])
use-add_pool ps c =
    ap (λ x. set (ps ++ (c ∷ [])) (length ps) (use_slot x 0)) (get_or-append_self ps c no_pool)
    ∙ set-append_self ps c (use_slot c 0)

-- What `use_place` answers for a slot of the map.
abbrev used_place : Place → GcType → GcType
used_place (k, ind) t = record t { pools = set t.pools k (use_slot (get_or t.pools k no_pool) ind) }

use_place-used :
    (place : Place) (t : GcType)
    → place.1 < pool_size
    → use_place place t ≡ some (used_place place t)
unfolding pool_use
use_place-used place t h = ground (arith, h)

-- The pools after a request, as `akl_gc_malloc` leaves them while the collector is off.
abbrev malloc_pools : List Word → ℕ → GcType → Place × GcType
malloc_pools fresh ind t =
    let (found, t') = type_have_free fresh ind t in
    elim found [
      | some place ↦ (place, used_place place t')
      | none ↦ ((length t'.pools, 0), used_place (length t'.pools, 0) (add_pool fresh t'))
    ]

malloc_pools-Takes :
    (ind : ℕ) (f : Marker) (ps : List Pool)
    → ArePacked ps
    → let (place, t') = malloc_pools zero_map ind (record { gt_marker_fn = f; pools = ps }) in
      Takes ps place t'.pools
unfolding type_have_free
malloc_pools-Takes ind f [] w = record {
  packed = first_slot create-IsPacked (count-create zero_map);
  next = omega arith;
  slot = omega arith;
  counted = omega (
    arith,
    count-create zero_map,
    count-use_slot (create zero_map) 0 (omega (arith, count-create zero_map)),
  );
}
malloc_pools-Takes ind f (p ∷ ps) w =
    let n : length (p ∷ ps) - 1 ≡ length ps = omega arith in
    let last = get_or (p ∷ ps) (length ps) no_pool in
    let w_last : IsPacked last = last-IsPacked p ps w in
    let sum = last_total p ps w in
    let zero_count = count-create zero_map in
    let first = first_slot create-IsPacked zero_count in
    rw (n, malloc_pools)
      (elim (Bool-cases (ltb last.count pool_size)) [
        | inl less ↦
            let h : last.count < pool_size = ground arith in
            let (packed, counted) = take_last p ps last refl w h in
            let room = have_free-IsPacked w_last ∙ less in
            let found = find_free-IsPacked w_last h in
            rw (room, found, malloc_pools)
              (record { packed = packed; next = omega arith; slot = h; counted = counted })
        | inr full ↦
            let room = have_free-IsPacked w_last ∙ full in
            rw (room, earlier_free-none p ps 0 ind w, malloc_pools)
              (subst (Takes (p ∷ ps) (length (p ∷ ps), 0))
                (sym (use-add_pool (p ∷ ps) (create zero_map)))
                (record {
                  packed = add_packed p ps _ w (ground (arith, w_last)) first;
                  next = ground (arith, w_last);
                  slot = omega arith;
                  counted = omega (
                    arith,
                    total-append (p ∷ ps) (use_slot (create zero_map) 0),
                    count-use_slot (create zero_map) 0 (omega arith),
                  );
                }))
      ])

type_of-set_type :
    (g : Gc) (tid : ℕ) (t : GcType) → tid < length g.types → type_of (set_type g tid t) tid ≡ t
type_of-set_type g tid t h = ground (arith, get_or-set g.types tid tid t no_type h)

-- While the collector is off and the system hands out cleared memory, the n-th request for an
-- object of a type gets slot number n: a slot that is in no earlier answer. The pools stay packed.
pub gc_malloc-Takes :
    (fuel ind : ℕ) (g : Gc) (tid : ℕ)
    → g.use_gc ≡ false
    → tid < length g.types
    → ArePacked (type_of g tid).pools
    → (place : Place) × (g' : Gc) × (gc_malloc (suc fuel) zero_map ind g tid ≡ some (place, g'))
      × (g'.use_gc ≡ false)
      × Takes (type_of g tid).pools place (type_of g' tid).pools
unfolding gc_malloc
gc_malloc-Takes fuel ind g tid off h w =
    let t = type_of g tid in
    let takes = malloc_pools-Takes ind t.gt_marker_fn t.pools w in
    let known : ltb tid (length g.types) ≡ true = ground (arith, h) in
    elim (Option-cases (type_have_free zero_map ind t).0) [
      | inr (place, found) ↦
          let t' = (type_have_free zero_map ind t).1 in
          let taken : Takes t.pools place (used_place place t').pools =
            rw (found, malloc_pools) at takes in
          (
            place,
            set_type g tid (used_place place t'),
            rw (known, found, use_place-used place t' taken.slot, gc_malloc),
            off,
            rw (type_of-set_type g tid _ h) taken,
          )
      | inl full ↦
          let t' = (type_have_free zero_map ind t).1 in
          let at_end : Place = (length t'.pools, 0) in
          let new = used_place at_end (add_pool zero_map t') in
          (
            at_end,
            record (set_type g tid new) { last_was_mark = false },
            ground (arith, full, known, use_place-used at_end (add_pool zero_map t') (omega arith)),
            off,
            rw (type_of-set_type g tid new h) (rw (full, malloc_pools) at takes),
          )
    ]
