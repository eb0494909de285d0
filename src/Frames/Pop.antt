-- ===== src/Frames/Pop.antt =====
-- `akl_frame_pop`: an entry that leaves the frame leaves the stack too.
use mathlib.Core.Path.{subst}
use mathlib.Core.List.{append_assoc, append-nil}
use ak_lisp.Base.{
  ℕ, ◌≡◌, inl, inr, refl, sym, ◌∙◌, true, false, some, ◌==◌, if◌then◌else◌, [], ◌∷◌, ◌++◌, arith,
  Bool-cases, length-append,
}
use ak_lisp.Lists.{Header, remove_entry, without, pop_entry}
use ak_lisp.Lists.Memory.{Entry, Heap, put_next}
use ak_lisp.Lists.Links.{
  Cells, has, has-append, first, last_of, last_of-append, Chain-front, ne_of_has, has-last_of,
  Distinct,
}
use ak_lisp.Lists.Writes.{
  linked_next, load_lem, IsPointer-linked_next, IsPointer-last_of, Chain-link_end,
}
use ak_lisp.Lists.Join.{Distinct-parts}
use ak_lisp.Lists.Shape.{IsList}
use ak_lisp.Lists.Remove.{entry_at, remove_entry-run, without-IsList, has_middle}
use ak_lisp.Lists.Ends.{pop_entry-run}
use ak_lisp.Frames.{Context, frame_pop}
use ak_lisp.Frames.Segment.{IsTop, EndsAt}

EndsAt-last : (ys : Cells) (a x l : ℕ) → EndsAt (ys ++ ((a, x) ∷ [])) l → l ≡ a
EndsAt-last [] a x l e = e
EndsAt-last ((p, y) ∷ ys) a x l e = e ∙ last_of-append p ys ((a, x) ∷ [])

-- What is left of the frame.
first-shorter :
    (ys : Cells) (a x : ℕ)
    → has a ys ≡ false
    → (if first (ys ++ ((a, x) ∷ [])) 0 == a then 0 else first (ys ++ ((a, x) ∷ [])) 0) ≡ first ys 0
first-shorter [] a x o = ground arith
first-shorter ((p, y) ∷ ys) a x o = ground (arith, o)

EndsAt-shorter :
    (below ys : Cells) (a l : ℕ) → l ≡ a → EndsAt ys (if l == a then last_of 0 (below ++ ys) else l)
EndsAt-shorter below [] a l e = tt
EndsAt-shorter below ((p, y) ∷ ys) a l e =
    let s : (l == a) ≡ true = ground (arith, e) in rw s (last_of-append 0 below ((p, y) ∷ ys))

frame_pop-run :
    (h h1 h2 : Heap) (c : Context) (a : ℕ) (f s : Header) (r : Entry)
    → (c.cx_frame.li_count == 0) ≡ false
    → (a == 0) ≡ false
    → pop_entry c.cx_frame h ≡ some ((a, f), h1)
    → remove_entry c.cx_stack a h1 ≡ some (s, h2)
    → h2 a ≡ some r
    → frame_pop c h ≡ some ((r.le_data, record c { cx_frame = f; cx_stack = s }), h2)
unfolding frame_pop
frame_pop-run h h1 h2 c a f s r some_left o e e' here =
    rw (frame_pop, some_left, e, e', o, load_lem h2 here o) refl

-- The last cell is neither among those before it nor the one before it.
outside : (xs : Cells) (a x : ℕ) → Distinct (xs ++ ((a, x) ∷ [])) → has a xs ≡ false
outside xs a x d = elim (Bool-cases (has a xs)) [
  | inr o ↦ o
  | inl i ↦
      let (_, _, apart) = Distinct-parts xs ((a, x) ∷ []) d in absurd (ground (arith, apart a i))
]

pub ne_last_of :
    (xs : Cells) (a : ℕ) → has a xs ≡ false → (a == 0) ≡ false → (a == last_of 0 xs) ≡ false
ne_last_of [] a out o = o
ne_last_of ((p, y) ∷ xs) a out o =
    ground (arith, ne_of_has (last_of p xs) a ((p, y) ∷ xs) (has-last_of p y xs) out)

-- A write to the entry before leaves the entry.
kept :
    (h : Heap) (a p n : ℕ) {r : Entry}
    → (a == p) ≡ false
    → h a ≡ some r
    → linked_next h p n a ≡ some r
unfolding put_next
kept h a p n o here = elim (Bool-cases (p == 0)) [
  | inl null ↦ rw null here
  | inr _ ↦ ground (arith, o, here)
]

-- Where the frame is the top of the stack, `akl_frame_pop` of a frame with a last entry returns its
-- value and takes the entry out of both lists: the frame is then the top of the stack without it.
pub frame_pop-IsTop :
    {h : Heap} {c : Context} (below ys : Cells) (a x : ℕ)
    → IsTop h c below (ys ++ ((a, x) ∷ []))
    → (c' : Context) × (h' : Heap) × (frame_pop c h ≡ some ((x, c'), h')) × IsTop h' c' below ys
frame_pop-IsTop {h} {c} below ys a x w =
    let xs = below ++ ys in
    let cells = xs ++ ((a, x) ∷ []) in
    let stack : IsList h c.cx_stack cells =
      subst (IsList h c.cx_stack) (sym (append_assoc below ys ((a, x) ∷ []))) w.stack in
    let p = last_of 0 xs in
    let o = ne_of_has a 0 cells (has_middle a x xs []) stack.no_null in
    let is_p = IsPointer-last_of xs (Chain-front xs ((a, x) ∷ []) stack.chain) in
    let here = entry_at xs [] stack.chain in
    let at_end = EndsAt-last ys a x c.cx_frame.li_last w.ends in
    let out = outside xs a x stack.distinct in
    let apart = ne_last_of xs a out o in
    let h1 = linked_next h p 0 in
    let h2 = linked_next h1 p 0 in
    let f = without c.cx_frame a p 0 in
    let s = without c.cx_stack a p 0 in
    let here1 = kept h a p 0 apart here in
    let here2 = kept h1 a p 0 apart here1 in
    let run1 = remove_entry-run a x h c.cx_frame p 0 here o is_p (inl refl) in
    let run2 =
      remove_entry-run a x h1 c.cx_stack p 0 here1 o (IsPointer-linked_next h p 0 p is_p)
        (inl refl) in
    let back = sym at_end in
    let popped =
      subst (λ q. pop_entry c.cx_frame h ≡ some ((q, f), h1)) at_end
        (pop_entry-run h c.cx_frame (subst (λ q. (q == 0) ≡ false) back o)
          (subst (λ q. remove_entry c.cx_frame q h ≡ some (f, h1)) back run1)) in
    let left : IsList h1 s (xs ++ []) = without-IsList a x xs [] stack in
    let left' : IsList h1 s xs = subst (IsList h1 s) (append-nil xs) left in
    let len = length-append ys ((a, x) ∷ []) in
    let some_left : (c.cx_frame.li_count == 0) ≡ false = ground (arith, w.count, len) in
    (
      record c { cx_frame = f; cx_stack = s },
      h2,
      frame_pop-run h h1 h2 c a f s _ some_left o popped run2 here2,
      record {
        stack = record {
          head = left'.head;
          last = left'.last;
          count = left'.count;
          small = left'.small;
          chain = Chain-link_end xs 0 left'.distinct left'.no_null left'.chain;
          distinct = left'.distinct;
          no_null = left'.no_null;
        };
        head = rw w.head (first-shorter ys a x (ground (arith, out, has-append a below ys)));
        ends = EndsAt-shorter below ys a c.cx_frame.li_last at_end;
        count = ground (
          arith,
          w.count,
          len,
          stack.small,
          length-append below ys,
          length-append xs ((a, x) ∷ []),
        );
      },
    )
