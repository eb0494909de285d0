-- ===== src/Gc/Alloc.antt =====
-- Requests for memory in src/gc.c: the pools of a type, the types, and `akl_gc_malloc`.
pub mod Packed
use mathlib.Core.Option
use ak_lisp.Base.{
  ℕ, zero, suc, ◌+◌, ◌-◌, Bool, true, false, not, ◌&&◌, Option, none, some, List, [], ◌∷◌, ◌++◌,
  get_or, set, length, ltb, if◌then◌else◌, ◌≡◌, refl, arith, Option-cases, inl, inr,
}
use ak_lisp.Gc.Word.{Word}
use ak_lisp.Gc.Pool.{Pool, pool_use, have_free, find_free, create}
use ak_lisp.Gc.Types.{Place, GcType, Gc, no_pool, type_of, set_type}
use ak_lisp.Gc.Sweep.{sweep_all}

-- `*ind = akl_gc_pool_find_free(...)`: -1 becomes the largest `unsigned int`.
abbrev pub as_index : Option ℕ → ℕ
as_index none = 4_294_967_295
as_index (some i) = i

-- The loop over the pools before the last. It does not store the index that it finds: the caller's
-- variable keeps its value `ind`.
pub earlier_free : List Pool → ℕ → ℕ → Option Place
earlier_free [] k ind = none
earlier_free (p ∷ []) k ind = none
earlier_free (p ∷ q ∷ ps) k ind =
    if have_free p then some (k, ind) else earlier_free (q ∷ ps) (k + 1) ind

abbrev pub last_pool : GcType → Pool
last_pool t = get_or t.pools (length t.pools - 1) no_pool

-- `akl_gc_pool_create`: the new pool stands at the end.
abbrev pub add_pool : List Word → GcType → GcType
add_pool fresh t = record t { pools = t.pools ++ (create fresh ∷ []) }

-- `akl_gc_type_have_free`. `ind` is what the caller's variable holds before, `fresh` the memory of
-- a pool that is created.
unfoldable pub type_have_free : List Word → ℕ → GcType → Option Place × GcType
unfolding earlier_free
type_have_free fresh ind t = elim t.pools [
  | [] ↦ (some (0, 0), add_pool fresh t)
  | p ∷ ps ↦ (
    if have_free (last_pool t)
        then some (length t.pools - 1, as_index (find_free (last_pool t)))
        else earlier_free t.pools 0 ind,
    t,
  )
]

-- `akl_gc_pool_use` on the pool of a place
abbrev pub use_place : Place → GcType → Option GcType
use_place (k, ind) t =
    Option.map (λ p. record t { pools = set t.pools k p }) (pool_use (get_or t.pools k no_pool) ind)

-- `akl_gc_malloc`. `akl_gc_mark`, which runs before the sweep, does nothing. The recursive call after
-- a collection finds `last_was_mark` set, so two rounds are enough. `none` is a fault, an assertion
-- that does not hold (also the one on the type), or the want of rounds.
pub gc_malloc : ℕ → List Word → ℕ → Gc → ℕ → Option (Place × Gc)
gc_malloc zero fresh ind g tid = none
gc_malloc (suc fuel) fresh ind g tid =
    let (found, t) = type_have_free fresh ind (type_of g tid) in
    let again = gc_malloc fuel fresh ind (record (sweep_all g) { last_was_mark = true }) tid in
    let at_end : Place = (length t.pools, 0) in
    if ltb tid (length g.types)
    then elim found [
      | some place ↦ Option.map (λ t'. (place, set_type g tid t')) (use_place place t)
      | none ↦
          if not g.last_was_mark && g.use_gc
          then again
          else Option.map (λ t'. (at_end, record (set_type g tid t') { last_was_mark = false }))
              (use_place at_end (add_pool fresh t))
    ]
    else none

gc_malloc-after_mark :
    (fuel : ℕ) (fresh : List Word) (ind : ℕ) (g : Gc) (tid : ℕ)
    → g.last_was_mark ≡ true
    → gc_malloc (suc fuel) fresh ind g tid ≡ gc_malloc 1 fresh ind g tid
unfolding gc_malloc
gc_malloc-after_mark fuel fresh ind g tid h =
    elim (Option-cases (type_have_free fresh ind (type_of g tid)).0) [
      | inl full ↦ rw (full, h) refl
      | inr (place, found) ↦ rw found refl
    ]

-- Two rounds are enough: more rounds give the same answer, whatever the state.
pub gc_malloc-rounds :
    (fuel : ℕ) (fresh : List Word) (ind : ℕ) (g : Gc) (tid : ℕ)
    → gc_malloc (suc (suc fuel)) fresh ind g tid ≡ gc_malloc 2 fresh ind g tid
unfolding gc_malloc
gc_malloc-rounds fuel fresh ind g tid =
    let e =
      gc_malloc-after_mark fuel fresh ind (record (sweep_all g) { last_was_mark = true }) tid
        refl in
    ground (arith, e)
