-- ===== src/Lists/Insert.antt =====
-- `akl_list_insert_head`: a new entry before the first one.
use mathlib.Core.Path.{subst}
use ak_lisp.Base.{ℕ, ◌+◌, ◌^◌, ◌<◌, ◌≡◌, refl, sym, true, false, some, ◌==◌, [], ◌∷◌, arith, length}
use ak_lisp.Lists.{Header, insert_head, count_up}
use ak_lisp.Lists.Memory.{Entry, Heap, put_new, put_next, put_prev}
use ak_lisp.Lists.Links.{
  first, Cells, has, Distinct, Chain, nil, cons, Chain-put_new, Chain-relink_start, Chain-put_next,
}
use ak_lisp.Lists.Writes.{set_next_lem, set_prev_lem}
use ak_lisp.Lists.Shape.{IsList}
use ak_lisp.Lists.Remove.{first_entry}

-- The heap and the header after an entry was put before the first one.
abbrev inserted : Heap → ℕ → ℕ → ℕ → Heap
inserted h fresh x p = put_next (put_prev (put_new h fresh x) p fresh) fresh p

abbrev wider : Header → ℕ → ℕ → Header
wider l fresh end = record l {
  li_head = fresh;
  li_last = end;
  li_count = count_up l.li_count;
  is_nil = false;
}

insert_head-run_nil :
    (h : Heap) (l : Header) (fresh x : ℕ)
    → (l.li_head == 0) ≡ true
    → insert_head fresh l x h ≡ some ((fresh, wider l fresh fresh), put_new h fresh x)
unfolding insert_head
insert_head-run_nil h l fresh x o = rw o

insert_head-run :
    (h : Heap) (l : Header) (fresh x : ℕ) {r s : Entry}
    → (l.li_head == 0) ≡ false
    → (fresh == 0) ≡ false
    → put_new h fresh x l.li_head ≡ some r
    → put_prev (put_new h fresh x) l.li_head fresh fresh ≡ some s
    → insert_head fresh l x h
      ≡ some ((fresh, wider l fresh l.li_last), inserted h fresh x l.li_head)
unfolding insert_head
insert_head-run h l fresh x o n e e' = rw (
  o,
  set_prev_lem (put_new h fresh x) fresh e o,
  set_next_lem (put_prev (put_new h fresh x) l.li_head fresh) l.li_head e' n,
)

alone :
    (h : Heap) (fresh x : ℕ)
    → put_new h fresh x fresh ≡ some (record { le_next = 0; le_prev = 0; le_data = x })
unfolding put_new
alone h fresh x = ground arith

new_cell :
    (h : Heap) (fresh x p : ℕ)
    → (fresh == p) ≡ false
    → put_prev (put_new h fresh x) p fresh fresh
      ≡ some (record { le_next = 0; le_prev = 0; le_data = x })
unfolding put_prev put_new
new_cell h fresh x p o = ground (arith, o)

old_cell :
    (h : Heap) (fresh x p : ℕ) {r : Entry}
    → (p == fresh) ≡ false
    → h p ≡ some r
    → put_new h fresh x p ≡ some r
unfolding put_new
old_cell h fresh x p o e = rw (o, e)

Chain-inserted :
    {h : Heap} (xs : Cells) (fresh x p y : ℕ)
    → Distinct ((p, y) ∷ xs)
    → has fresh ((p, y) ∷ xs) ≡ false
    → (fresh == p) ≡ false
    → Chain h 0 0 ((p, y) ∷ xs)
    → Chain (inserted h fresh x p) 0 0 ((fresh, x) ∷ (p, y) ∷ xs)
Chain-inserted {h} xs fresh x p y d new o c =
    let g = put_prev (put_new h fresh x) p fresh in
    let here : put_next g fresh p fresh ≡ some (record { le_next = p; le_prev = 0; le_data = x }) =
      unfold put_next in ground (arith, new_cell h fresh x p o) in
    cons here
      (Chain-put_next fresh p (Chain-relink_start fresh d (Chain-put_new fresh x c new)) new)

-- `akl_list_insert_head` with an entry that the list does not hold yet puts the data at its front.
pub insert_head-IsList :
    {h : Heap} {l : Header} (xs : Cells) (fresh x : ℕ)
    → IsList h l xs
    → (fresh == 0) ≡ false
    → has fresh xs ≡ false
    → length xs + 1 < 2 ^ 32
    → (l' : Header) × (h' : Heap) × (insert_head fresh l x h ≡ some ((fresh, l'), h'))
      × IsList h' l' ((fresh, x) ∷ xs)
insert_head-IsList {h} {l} [] fresh x w o new small = (
  wider l fresh fresh,
  put_new h fresh x,
  insert_head-run_nil h l fresh x (ground (arith, w.head)),
  record {
    head = refl;
    last = refl;
    count = ground (arith, w.count);
    small = omega arith;
    chain = cons (alone h fresh x) nil;
    distinct = (refl, tt);
    no_null = ground (arith, o);
  },
)
insert_head-IsList {h} {l} ((p, y) ∷ xs) fresh x w o new small =
    let old : Entry = record { le_next = first xs 0; le_prev = 0; le_data = y } in
    let ne : (fresh == p) ≡ false = ground (arith, new) in
    let ne' : (p == fresh) ≡ false = ground (arith, ne) in
    let back = sym w.head in
    let p_some : (p == 0) ≡ false = ground (arith, w.no_null) in
    let run =
      insert_head-run h l fresh x (subst (λ q. (q == 0) ≡ false) back p_some) o
        (subst (λ q. put_new h fresh x q ≡ some old) back
          (old_cell h fresh x p ne' (first_entry w.chain)))
        (new_cell h fresh x l.li_head (subst (λ q. (fresh == q) ≡ false) back ne)) in
    (
      wider l fresh l.li_last,
      inserted h fresh x l.li_head,
      run,
      record {
        head = refl;
        last = w.last;
        count = ground (arith, w.count, small);
        small = omega arith;
        chain =
            subst (λ q. Chain (inserted h fresh x q) 0 0 ((fresh, x) ∷ (p, y) ∷ xs)) back
              (Chain-inserted xs fresh x p y w.distinct new ne w.chain);
        distinct = (new, w.distinct);
        no_null = ground (arith, o, w.no_null);
      },
    )
