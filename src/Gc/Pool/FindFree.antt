-- ===== src/Gc/Pool/FindFree.antt =====
-- The search for a free slot: `akl_gc_pool_have_free` and `akl_gc_pool_find_free`.
use ak_lisp.Base.{
  ℕ, zero, suc, ◌+◌, ◌/◌, ◌%◌, ◌^◌, ◌≤◌, ◌<◌, ◌≡◌, refl, ap, sym, ◌∙◌, ◌&&◌, ◌||◌, not, Bool, true,
  false, Option, none, some, List, [], ◌∷◌, arith, length, get_or, ◌==◌, if◌then◌else◌, Bool-cases,
  inl, inr, ltb,
}
use ak_lisp.Gc.Word.{
  Word, bits_in_uint, uint_max, value, is_bit_set, AllSet, AllSet-of_full, full_of_AllSet,
}
use ak_lisp.Gc.Pool.{
  Pool, in_use, have_free, any_not_full, find_free, first_clear, scan_map, pool_size, map_size,
}
use ak_lisp.Gc.Pool.Bits.{IsMap}

-- What the inner loop has found when it stops.
abbrev Cleared : Word → ℕ → ℕ → Option ℕ → Type 0
Cleared w n j none = (i : ℕ) → j ≤ i → i < j + n → is_bit_set w i ≡ true
Cleared w n j (some k) = (k < j + n) × (is_bit_set w k ≡ false)

Cleared-step :
    (w : Word) (n j : ℕ) (r : Option ℕ)
    → is_bit_set w j ≡ true
    → Cleared w n (j + 1) r
    → Cleared w (suc n) j r
Cleared-step w n j (some k) busy (l, c) = (omega arith, c)
Cleared-step w n j none busy h = λ i l m. elim (Bool-cases (i == j)) [
  | inl here ↦ let e : i ≡ j = ground arith in rw e busy
  | inr there ↦ h i (ground arith) (omega arith)
]

first_clear-Cleared : (w : Word) (n j : ℕ) → Cleared w n j (first_clear w n j)
unfolding first_clear
first_clear-Cleared w zero j = λ i l h. absurd (omega arith)
first_clear-Cleared w (suc n) j = elim (Bool-cases (is_bit_set w j)) [
  | inr clear ↦ rw clear (omega arith, clear)
  | inl busy ↦ rw busy (Cleared-step w n j _ busy (first_clear-Cleared w n (j + 1)))
]

bit_of_is_bit_set :
    (w : Word) (i : ℕ) → i < bits_in_uint → is_bit_set w i ≡ true → get_or w i false ≡ true
unfolding is_bit_set
bit_of_is_bit_set w i l h = let e : i % bits_in_uint ≡ i = omega arith in rw e at h

-- A word that differs from UINT_MAX has a bit that is not set, and the loop finds one.
pub first_clear_of_not_full :
    (w : Word)
    → length w ≡ bits_in_uint
    → (value w == uint_max) ≡ false
    → (j : ℕ) × (first_clear w bits_in_uint 0 ≡ some j)
      × (j < bits_in_uint)
      × (is_bit_set w j ≡ false)
first_clear_of_not_full w l h =
    found (first_clear w bits_in_uint 0) refl (first_clear-Cleared w bits_in_uint 0)
  where
    found :
        (r : Option ℕ)
        → first_clear w bits_in_uint 0 ≡ r
        → Cleared w bits_in_uint 0 r
        → (j : ℕ) × (first_clear w bits_in_uint 0 ≡ some j)
          × (j < bits_in_uint)
          × (is_bit_set w j ≡ false)
    found none e c =
        let all : AllSet w =
          λ i b. bit_of_is_bit_set w i (omega arith) (c i (omega arith) (omega arith)) in
        let full : 2 ^ length w ≡ 2 ^ bits_in_uint = ap (λ (n : ℕ). 2 ^ n) l in
        absurd (ground (arith, full_of_AllSet w all))
    found (some j) e (m, c) = (j, e, m, c)

pub two_words : (ws : List Word) → length ws ≡ map_size → ws ≡ get_or ws 0 [] ∷ get_or ws 1 [] ∷ []
two_words [] h = absurd (omega arith)
two_words (a ∷ []) h = absurd (omega arith)
two_words (a ∷ b ∷ []) h = refl
two_words (a ∷ b ∷ c ∷ ws) h = absurd (omega arith)

-- The search returns a bit of the first word that is not full.
scan_map-two :
    (a b : Word)
    → length a ≡ bits_in_uint
    → length b ≡ bits_in_uint
    → ((value a == uint_max) && (value b == uint_max)) ≡ false
    → (j : ℕ) × (scan_map (a ∷ b ∷ []) ≡ some j)
      × (j < bits_in_uint)
      × (is_bit_set (if value a == uint_max then b else a) j ≡ false)
unfolding scan_map
scan_map-two a b la lb h = elim (Bool-cases (value a == uint_max)) [
  | inr room ↦
      let (j, e, l, c) = first_clear_of_not_full a la room in (j, rw (room, e), l, rw room c)
  | inl full ↦
      let room : (value b == uint_max) ≡ false = ground arith in
      let (j, e, l, c) = first_clear_of_not_full b lb room in (j, rw (full, room, e), l, rw full c)
]

-- the slot behind the last one handed out may be taken
abbrev pub next_usable : Pool → Bool
next_usable p = ltb p.count pool_size && not (in_use p p.count)

abbrev pub first_word_full : Pool → Bool
first_word_full p = value (get_or p.freemap 0 []) == uint_max

in_use_of_first_word :
    (p : Pool) (j : ℕ) → j < bits_in_uint → in_use p j ≡ is_bit_set (get_or p.freemap 0 []) j
unfolding in_use
in_use_of_first_word p j h = let e : j / bits_in_uint ≡ 0 = omega arith in rw e

is_bit_set_of_full :
    (w : Word) (j : ℕ)
    → length w ≡ bits_in_uint
    → (value w == uint_max) ≡ true
    → j < bits_in_uint
    → is_bit_set w j ≡ true
unfolding is_bit_set
is_bit_set_of_full w j l h b =
    let e : 2 ^ length w ≡ 2 ^ bits_in_uint = ap (λ (n : ℕ). 2 ^ n) l in
    AllSet-of_full w (ground arith) (j % bits_in_uint) (omega arith)

module _ {p : Pool} (m : IsMap p) where
  scan_map-some :
      have_free p ≡ true
      → (j : ℕ) × (scan_map p.freemap ≡ some j)
        × (j < bits_in_uint)
        × (is_bit_set (if first_word_full p then get_or p.freemap 1 [] else get_or p.freemap 0 []) j
            ≡ false)
  unfolding have_free any_not_full
  scan_map-some h =
      let e = two_words p.freemap m.words in
      let some_room : any_not_full p.freemap ≡ true = h in
      let room : any_not_full (get_or p.freemap 0 [] ∷ get_or p.freemap 1 [] ∷ []) ≡ true =
        sym (ap any_not_full e) ∙ some_room in
      let (j, found, l, c) =
        scan_map-two (get_or p.freemap 0 []) (get_or p.freemap 1 []) (m.bits 0 (omega arith))
          (m.bits 1 (omega arith)) (ground (arith, room)) in
      (j, ap scan_map e ∙ found, l, c)

  -- On a pool with a free slot the search finds an index in the pool. It is free if the slot after
  -- the last one is, or if the first word of the map is not full.
  pub find_free-in_use :
      have_free p ≡ true
      → (next_usable p || not (first_word_full p)) ≡ true
      → (j : ℕ) × (find_free p ≡ some j) × (j < pool_size) × (in_use p j ≡ false)
  unfolding find_free
  find_free-in_use h good = elim (Bool-cases (next_usable p)) [
    | inl next ↦ (p.count, rw next, ground arith, ground arith)
    | inr taken ↦
        let (j, e, l, c) = scan_map-some h in
        let room : first_word_full p ≡ false = ground arith in
        (j, rw (taken, e), omega arith, in_use_of_first_word p j l ∙ (rw room at c))
  ]

  -- Where the first word of the map is full and the second is not, the search drops the offset of
  -- the second word: the slot that it names is in use.
  pub find_free-second_word :
      have_free p ≡ true
      → (next_usable p || not (first_word_full p)) ≡ false
      → (j : ℕ) × (find_free p ≡ some j) × (j < bits_in_uint) × (in_use p j ≡ true)
  unfolding find_free
  find_free-second_word h bad =
      let (j, e, l, c) = scan_map-some h in
      let taken : next_usable p ≡ false = ground arith in
      (
        j,
        rw (taken, e),
        l,
        in_use_of_first_word p j l
            ∙ is_bit_set_of_full (get_or p.freemap 0 []) j (m.bits 0 (omega arith)) (ground arith)
                l,
      )
