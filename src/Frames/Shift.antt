-- ===== src/Frames/Shift.antt =====
-- `akl_frame_shift`: the first entry of the frame leaves the frame and the stack.
use mathlib.Core.Path.{subst}
use ak_lisp.Base.{
  ℕ, ◌≡◌, inl, inr, refl, sym, false, some, ◌==◌, if◌then◌else◌, [], ◌∷◌, ◌++◌, arith, Bool-cases,
  length-append,
}
use ak_lisp.Lists.{Header, remove_entry, without, shift_entry, count_down}
use ak_lisp.Lists.Memory.{Entry, Heap, put_next, put_prev}
use ak_lisp.Lists.Links.{
  Cells, has, has-append, has-last_of, first, last_of, Chain-front, Chain-rest, ne_of_has,
}
use ak_lisp.Lists.Writes.{
  linked_next, linked_prev, load_lem, link_prev_lem, IsPointer, IsPointer-first, IsPointer-last_of,
  Chain-linked_prev, Chain-link_start,
}
use ak_lisp.Lists.Join.{joined, Distinct-parts, Disjoint, first-outside, Chain-joined}
use ak_lisp.Lists.Remove.{entry_at, first_rest, remove_entry-run, without-IsList, has_middle}
use ak_lisp.Frames.{Context, frame_shift}
use ak_lisp.Frames.Segment.{IsTop, EndsAt}
use ak_lisp.Frames.Pop.{ne_last_of}

-- The header after a shift, where `n` is the entry behind the first.
abbrev shifted : Header → ℕ → Header
shifted l n = record l {
  li_head = n;
  li_last = if l.li_head == l.li_last then n else l.li_last;
  li_count = count_down l.li_count;
}

shift_entry-run :
    (h : Heap) (l : Header) (p n x : ℕ)
    → h l.li_head ≡ some (record { le_next = n; le_prev = p; le_data = x })
    → (l.li_head == 0) ≡ false
    → IsPointer h n
    → shift_entry l h ≡ some ((l.li_head, shifted l n), linked_prev h n 0)
unfolding shift_entry
shift_entry-run h l p n x here o is_n =
    rw (shift_entry, o, load_lem h here o, link_prev_lem h n 0 is_n) refl

frame_shift-run :
    (h h1 h2 : Heap) (c : Context) (a : ℕ) (f s : Header) (r : Entry)
    → (c.cx_frame.li_count == 0) ≡ false
    → (a == 0) ≡ false
    → shift_entry c.cx_frame h ≡ some ((a, f), h1)
    → remove_entry c.cx_stack a h1 ≡ some (s, h2)
    → h2 a ≡ some r
    → frame_shift c h ≡ some ((r.le_data, record c { cx_frame = f; cx_stack = s }), h2)
unfolding frame_shift
frame_shift-run h h1 h2 c a f s r some_left o e e' here =
    rw (frame_shift, some_left, e, e', o, load_lem h2 here o) refl

kept_next :
    (h : Heap) (a p n : ℕ) {r : Entry}
    → (a == p) ≡ false
    → h a ≡ some r
    → linked_next h p n a ≡ some r
unfolding put_next
kept_next h a p n o here = elim (Bool-cases (p == 0)) [
  | inl null ↦ rw null here
  | inr _ ↦ ground (arith, o, here)
]

kept_prev :
    (h : Heap) (a p n : ℕ) {r : Entry}
    → (a == p) ≡ false
    → h a ≡ some r
    → linked_prev h p n a ≡ some r
unfolding put_prev
kept_prev h a p n o here = elim (Bool-cases (p == 0)) [
  | inl null ↦ rw null here
  | inr _ ↦ ground (arith, o, here)
]

IsPointer-linked_prev : (h : Heap) (p n q : ℕ) → IsPointer h q → IsPointer (linked_prev h p n) q
unfolding put_prev
IsPointer-linked_prev h p n q (inl z) = inl z
IsPointer-linked_prev h p n q (inr (r, e)) = elim (Bool-cases (q == p)) [
  | inr there ↦ inr (r, kept_prev h q p n there e)
  | inl here ↦ elim (Bool-cases (p == 0)) [
    | inl null ↦ rw null (inr (r, e))
    | inr o ↦ rw o (inr (record r { le_prev = n }, rw (here, e) refl))
  ]
]

ne_first : (ys : Cells) (a : ℕ) → has a ys ≡ false → (a == 0) ≡ false → (a == first ys 0) ≡ false
ne_first [] a out o = o
ne_first ((p, y) ∷ ys) a out o = ground (arith, out)

EndsAt-rest :
    (ys : Cells) (a n hd l : ℕ)
    → has a ys ≡ false
    → hd ≡ a
    → l ≡ last_of a ys
    → EndsAt ys (if hd == l then n else l)
EndsAt-rest [] a n hd l out e e' = tt
EndsAt-rest ((p, y) ∷ ys) a n hd l out e e' =
    let ne = ne_of_has (last_of p ys) a ((p, y) ∷ ys) (has-last_of p y ys) out in
    let s : (hd == l) ≡ false = ground (arith, e, e', ne) in rw s e'

outside_below : (below ys : Cells) (a x : ℕ) → Disjoint below ((a, x) ∷ ys) → has a below ≡ false
outside_below below ys a x apart = elim (Bool-cases (has a below)) [
  | inr o ↦ o
  | inl i ↦ absurd (ground (arith, apart a i))
]

-- Where the frame is the top of the stack, `akl_frame_shift` of a frame with a first entry returns
-- its value and takes the entry out of both lists: the frame is then the top of the stack, on the
-- same entries below.
pub frame_shift-IsTop :
    {h : Heap} {c : Context} (below ys : Cells) (a x : ℕ)
    → IsTop h c below ((a, x) ∷ ys)
    → (c' : Context) × (h' : Heap) × (frame_shift c h ≡ some ((x, c'), h')) × IsTop h' c' below ys
frame_shift-IsTop {h} {c} below ys a x w =
    let stack = w.stack in
    let cells = below ++ ((a, x) ∷ ys) in
    let p = last_of 0 below in
    let n = first ys 0 in
    let o = ne_of_has a 0 cells (has_middle a x below ys) stack.no_null in
    let front = Chain-front below ((a, x) ∷ ys) stack.chain in
    let rest = first_rest (Chain-rest below ((a, x) ∷ ys) stack.chain) in
    let here = entry_at below ys stack.chain in
    let (_, dy, apart) = Distinct-parts below ((a, x) ∷ ys) stack.distinct in
    let out_below = outside_below below ys a x apart in
    let ne_p = ne_last_of below a out_below o in
    let ne_n = ne_first ys a dy.0 o in
    let h1 = linked_prev h n 0 in
    let h2 = joined h1 below ys in
    let f = shifted c.cx_frame n in
    let s = without c.cx_stack a p n in
    let here1 = kept_prev h a n 0 ne_n here in
    let here2 = kept_prev (linked_next h1 p n) a n p ne_n (kept_next h1 a p n ne_p here1) in
    let back = sym w.head in
    let shift =
      shift_entry-run h c.cx_frame p n x
        (subst (λ q. h q ≡ some (record { le_next = n; le_prev = p; le_data = x })) back here)
        (subst (λ q. (q == 0) ≡ false) back o) (IsPointer-first rest) in
    let run1 = subst (λ q. shift_entry c.cx_frame h ≡ some ((q, f), h1)) w.head shift in
    let run2 =
      remove_entry-run a x h1 c.cx_stack p n here1 o
        (IsPointer-linked_prev h n 0 p (IsPointer-last_of below front))
        (IsPointer-linked_prev h n 0 n (IsPointer-first rest)) in
    let left = without-IsList a x below ys stack in
    let zy : has 0 ys ≡ false = ground (arith, stack.no_null, has-append 0 below ((a, x) ∷ ys)) in
    (
      record c { cx_frame = f; cx_stack = s },
      h2,
      frame_shift-run h h1 h2 c a f s _ (ground (arith, w.count)) o run1 run2 here2,
      record {
        stack = record {
          head = left.head;
          last = left.last;
          count = left.count;
          small = left.small;
          chain =
              Chain-joined below ys left.distinct left.no_null
                (Chain-linked_prev n 0 front
                  (first-outside below ys (λ b i. ground (arith, apart b i))))
                (Chain-link_start ys 0 dy.1 zy rest);
          distinct = left.distinct;
          no_null = left.no_null;
        };
        head = refl;
        ends = EndsAt-rest ys a n c.cx_frame.li_head c.cx_frame.li_last dy.0 w.head w.ends;
        count = ground (arith, w.count, stack.small, length-append below ((a, x) ∷ ys));
      },
    )
