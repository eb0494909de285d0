-- ===== src/Gc/Sweep/Shrinks.antt =====
-- What a sweep can change: slots get free, and marks get cleared.
use mathlib.Core.Path.{sym, subst}
use ak_lisp.Base.{
  ℕ, zero, suc, ◌<◌, ◌≡◌, refl, ap, ◌∙◌, ◌⊎◌, inl, inr, Bool, true, false, List, [], ◌∷◌, arith,
  length, get_or, set, length-set,
}
use ak_lisp.Gc.Pool.{Pool, in_use, clear_use, pool_size}
use ak_lisp.Gc.Pool.Bits.{IsMap, in_use-clear_use, clear_use-IsMap}
use ak_lisp.Gc.Types.{Place, GcType, Gc, no_pool, no_type, type_of, pool_of, set_pool, set_mark}

abbrev pub marked : Pool → ℕ → Bool
marked p i = get_or p.marks i false

-- A pool with slots freed and marks cleared.
pub record Less (p q : Pool) : Type 0 where
  pub map : IsMap p → IsMap q
  pub used : (j : ℕ) → j < pool_size → IsMap p → in_use q j ≡ true → in_use p j ≡ true
  pub marks : (j : ℕ) → marked q j ≡ true → marked p j ≡ true

pub record Shrinks (g h : Gc) : Type 0 where
  pub types : length h.types ≡ length g.types
  pub markers : (tid : ℕ) → (type_of h tid).gt_marker_fn ≡ (type_of g tid).gt_marker_fn
  pub pools : (tid : ℕ) → length (type_of h tid).pools ≡ length (type_of g tid).pools
  pub each : (tid k : ℕ) → Less (pool_of g tid k) (pool_of h tid k)

pub Less-refl : (p : Pool) → Less p p
Less-refl p = record { map = λ m. m; used = λ j l m u. u; marks = λ j u. u }

Less-trans : {p q r : Pool} → Less p q → Less q r → Less p r
Less-trans a b = record {
  map = λ m. b.map (a.map m);
  used = λ j l m u. a.used j l m (b.used j l (a.map m) u);
  marks = λ j u. a.marks j (b.marks j u);
}

pub Shrinks-refl : (g : Gc) → Shrinks g g
Shrinks-refl g = record {
  types = refl;
  markers = λ t. refl;
  pools = λ t. refl;
  each = λ t k. Less-refl (pool_of g t k);
}

pub Shrinks-trans : {f g h : Gc} → Shrinks f g → Shrinks g h → Shrinks f h
Shrinks-trans a b = record {
  types = b.types ∙ a.types;
  markers = λ t. b.markers t ∙ a.markers t;
  pools = λ t. b.pools t ∙ a.pools t;
  each = λ t k. Less-trans (a.each t k) (b.each t k);
}

get_or-set_either {ℓ} :
    {A : Type ℓ} (xs : List A) (i j : ℕ) (v d : A)
    → ((j ≡ i) × (get_or (set xs i v) j d ≡ v)) ⊎ (get_or (set xs i v) j d ≡ get_or xs j d)
get_or-set_either [] i j v d = inr refl
get_or-set_either (x ∷ xs) zero zero v d = inl (refl, refl)
get_or-set_either (x ∷ xs) zero (suc j) v d = inr refl
get_or-set_either (x ∷ xs) (suc i) zero v d = inr refl
get_or-set_either (x ∷ xs) (suc i) (suc j) v d = elim (get_or-set_either xs i j v d) [
  | inl (e, r) ↦ inl (ap (λ n. suc n) e, r)
  | inr r ↦ inr r
]

module _ (g : Gc) (tid k : ℕ) (p : Pool) (l : Less (pool_of g tid k) p) where
  new_type : GcType
  new_type = record (type_of g tid) { pools = set (type_of g tid).pools k p }

  pools-set_pool :
      (t j : ℕ) (x : GcType)
      → t ≡ tid
      → x ≡ new_type
      → Less (pool_of g t j) (get_or x.pools j no_pool)
  unfolding new_type
  pools-set_pool t j x e same =
      subst (λ (y : GcType). Less (pool_of g t j) (get_or y.pools j no_pool)) (sym same)
        (subst (λ s. Less (pool_of g s j) (get_or (set (type_of g tid).pools k p) j no_pool))
          (sym e)
          (elim (get_or-set_either (type_of g tid).pools k j p no_pool) [
            | inl (at, r) ↦
                subst (λ q. Less (pool_of g tid j) q) (sym r)
                  (subst (λ i. Less (pool_of g tid i) p) (sym at) l)
            | inr r ↦ subst (λ q. Less (pool_of g tid j) q) (sym r) (Less-refl (pool_of g tid j))
          ]))

  pub set_pool-Shrinks : Shrinks g (set_pool g tid k p)
  unfolding new_type
  set_pool-Shrinks = record {
    types = length-set g.types tid new_type;
    markers = λ t. elim (get_or-set_either g.types tid t new_type no_type) [
      | inl (e, r) ↦
          ap (λ (x : GcType). x.gt_marker_fn) r ∙ ap (λ s. (type_of g s).gt_marker_fn) (sym e)
      | inr r ↦ ap (λ (x : GcType). x.gt_marker_fn) r
    ];
    pools = λ t. elim (get_or-set_either g.types tid t new_type no_type) [
      | inl (e, r) ↦
          ap (λ (x : GcType). length x.pools) r
          ∙ length-set (type_of g tid).pools k p
          ∙ ap (λ s. length (type_of g s).pools) (sym e)
      | inr r ↦ ap (λ (x : GcType). length x.pools) r
    ];
    each = λ t j. elim (get_or-set_either g.types tid t new_type no_type) [
      | inl (e, r) ↦ pools-set_pool t j (type_of (set_pool g tid k p) t) e r
      | inr r ↦
          subst (λ (x : GcType). Less (pool_of g t j) (get_or x.pools j no_pool)) (sym r)
            (Less-refl (pool_of g t j))
    ];
  }

unmarked-Less : (p : Pool) (i : ℕ) → Less p (record p { marks = set p.marks i false })
unfolding in_use
unmarked-Less p i = record {
  map = λ m. record { words = m.words; bits = m.bits };
  used = λ j l m u. u;
  marks = λ j u. elim (get_or-set_either p.marks i j false false) [
    | inl (e, r) ↦ cc
    | inr r ↦ sym r ∙ u
  ];
}

pub set_mark-Shrinks : (tid : ℕ) (o : Place) (g : Gc) → Shrinks g (set_mark false tid o g)
unfolding set_mark
set_mark-Shrinks tid (k, i) g = set_pool-Shrinks g tid k _ (unmarked-Less (pool_of g tid k) i)

marks-clear_use : (p : Pool) (i : ℕ) → (clear_use p i).marks ≡ p.marks
unfolding clear_use
marks-clear_use p i = refl

pub clear_use-Less : (p : Pool) (i : ℕ) → i < pool_size → Less p (clear_use p i)
clear_use-Less p i h = record {
  map = λ m. clear_use-IsMap m i h;
  used = λ j l m u. ground (arith, in_use-clear_use m i j h l, u);
  marks = λ j u. ap (λ ms. get_or ms j false) (sym (marks-clear_use p i)) ∙ u;
}
