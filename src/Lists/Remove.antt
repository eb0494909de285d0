-- ===== src/Lists/Remove.antt =====
-- Taking entries out of a list: `akl_list_remove_entry` and what calls it.
use mathlib.Core.List.{append-nil}
use ak_lisp.Base.{
  ℕ, ◌+◌, ◌≡◌, true, false, some, ◌==◌, if◌then◌else◌, [], ◌∷◌, ◌++◌, arith, length, length-append,
}
use ak_lisp.Lists.{Header, remove_entry, without}
use ak_lisp.Lists.Memory.{Heap}
use ak_lisp.Lists.Links.{
  Cells, has, first, last_of, Distinct, Chain, cons, has-append, has-last_of, ne_of_has,
  last_of-append, Chain-front, Chain-rest,
}
use ak_lisp.Lists.Writes.{
  linked_next, load_lem, link_next_lem, link_prev_lem, IsPointer-first, IsPointer-last_of,
  linked_prev, IsPointer, IsPointer-linked_next,
}
use ak_lisp.Lists.Join.{Distinct-parts, Distinct-append, joined, Chain-joined}
use ak_lisp.Lists.Shape.{IsList}

pub first_entry :
    {h : Heap} {b a x : ℕ} {ys : Cells}
    → Chain h 0 b ((a, x) ∷ ys)
    → h a ≡ some (record { le_next = first ys 0; le_prev = b; le_data = x })
first_entry (cons l d) = l

pub first_rest : {h : Heap} {b a x : ℕ} {ys : Cells} → Chain h 0 b ((a, x) ∷ ys) → Chain h 0 a ys
first_rest (cons l d) = d

-- The entry at a place of a chain.
pub entry_at :
    {h : Heap} {a x : ℕ} (xs ys : Cells)
    → Chain h 0 0 (xs ++ ((a, x) ∷ ys))
    → h a ≡ some (record { le_next = first ys 0; le_prev = last_of 0 xs; le_data = x })
entry_at {a} {x} xs ys c = first_entry (Chain-rest xs ((a, x) ∷ ys) c)

module _ (a x : ℕ) where
  pub has_middle : (xs ys : Cells) → has a (xs ++ ((a, x) ∷ ys)) ≡ true
  has_middle xs ys = ground (arith, has-append a xs ((a, x) ∷ ys))

  -- a list without the cell is as well formed as with it
  Distinct-without : (xs ys : Cells) → Distinct (xs ++ ((a, x) ∷ ys)) → Distinct (xs ++ ys)
  Distinct-without xs ys d =
      let (dx, dy, apart) = Distinct-parts xs ((a, x) ∷ ys) d in
      Distinct-append xs ys dx dy.1 (λ b i. ground (arith, apart b i))

  has-without :
      (b : ℕ) (xs ys : Cells) → has b (xs ++ ((a, x) ∷ ys)) ≡ false → has b (xs ++ ys) ≡ false
  has-without b xs ys o = ground (arith, has-append b xs ((a, x) ∷ ys), has-append b xs ys)

  -- the header after the cell was taken out
  first-without :
      (xs ys : Cells)
      → Distinct (xs ++ ((a, x) ∷ ys))
      → (if first (xs ++ ((a, x) ∷ ys)) 0 == a then first ys 0 else first (xs ++ ((a, x) ∷ ys)) 0)
        ≡ first (xs ++ ys) 0
  first-without [] ys d = ground arith
  first-without ((p, y) ∷ xs) ys d = ground (arith, has-append p xs ((a, x) ∷ ys))

  last_of-without :
      (xs ys : Cells)
      → Distinct (xs ++ ((a, x) ∷ ys))
      → (if last_of 0 (xs ++ ((a, x) ∷ ys)) == a
          then last_of 0 xs
          else last_of 0 (xs ++ ((a, x) ∷ ys)))
        ≡ last_of 0 (xs ++ ys)
  last_of-without xs [] d = rw (last_of-append 0 xs ((a, x) ∷ []), append-nil) (ground arith)
  last_of-without xs ((q, y) ∷ ys) d =
      let parts = Distinct-parts xs ((a, x) ∷ (q, y) ∷ ys) d in
      let apart = ne_of_has (last_of q ys) a ((q, y) ∷ ys) (has-last_of q y ys) parts.1.0 in
      rw (last_of-append 0 xs ((a, x) ∷ (q, y) ∷ ys), last_of-append 0 xs ((q, y) ∷ ys), apart)

  -- The header and the heap after the removal are the list without the cell.
  pub without-IsList :
      {h : Heap} {l : Header} (xs ys : Cells)
      → IsList h l (xs ++ ((a, x) ∷ ys))
      → IsList (joined h xs ys) (without l a (last_of 0 xs) (first ys 0)) (xs ++ ys)
  without-IsList {h} {l} xs ys w =
      let cells = xs ++ ((a, x) ∷ ys) in
      let front = Chain-front xs ((a, x) ∷ ys) w.chain in
      let rest = first_rest (Chain-rest xs ((a, x) ∷ ys) w.chain) in
      let fewer : length cells ≡ length (xs ++ ys) + 1 =
        omega (arith, length-append xs ((a, x) ∷ ys), length-append xs ys) in
      record {
        head = rw w.head (first-without xs ys w.distinct);
        last = rw w.last (last_of-without xs ys w.distinct);
        count = ground (arith, w.small, w.count);
        small = ground (arith, w.small);
        chain =
            Chain-joined xs ys (Distinct-without xs ys w.distinct) (has-without 0 xs ys w.no_null)
              front rest;
        distinct = Distinct-without xs ys w.distinct;
        no_null = has-without 0 xs ys w.no_null;
      }

  -- What the removal of an entry does to any header and heap.
  pub remove_entry-run :
      (h : Heap) (l : Header) (p n : ℕ)
      → h a ≡ some (record { le_next = n; le_prev = p; le_data = x })
      → (a == 0) ≡ false
      → IsPointer h p
      → IsPointer h n
      → remove_entry l a h ≡ some (without l a p n, linked_prev (linked_next h p n) n p)
  unfolding remove_entry
  remove_entry-run h l p n here o is_p is_n = rw (
    o,
    load_lem h here o,
    link_next_lem h p n is_p,
    link_prev_lem (linked_next h p n) n p (IsPointer-linked_next h p n n is_n),
    remove_entry,
  )

  -- `akl_list_remove_entry` of an entry that is anywhere in the list unlinks exactly that entry:
  -- the list then holds the cells before it and after it, in order.
  pub remove_entry-IsList :
      {h : Heap} {l : Header} (xs ys : Cells)
      → IsList h l (xs ++ ((a, x) ∷ ys))
      → (l' : Header) × (h' : Heap) × (remove_entry l a h ≡ some (l', h')) × IsList h' l' (xs ++ ys)
  remove_entry-IsList {h} {l} xs ys w =
      let cells = xs ++ ((a, x) ∷ ys) in
      let o = ne_of_has a 0 cells (has_middle xs ys) w.no_null in
      let front = Chain-front xs ((a, x) ∷ ys) w.chain in
      let rest = first_rest (Chain-rest xs ((a, x) ∷ ys) w.chain) in
      (
        without l a (last_of 0 xs) (first ys 0),
        joined h xs ys,
        remove_entry-run h l (last_of 0 xs) (first ys 0) (entry_at xs ys w.chain) o
            (IsPointer-last_of xs front) (IsPointer-first rest),
        without-IsList xs ys w,
      )
