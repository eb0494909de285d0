-- ===== src/Lists/Append.antt =====
-- `akl_list_append`: a new entry behind the last one.
use mathlib.Core.Path.{subst}
use ak_lisp.Base.{
  ℕ, ◌+◌, ◌^◌, ◌<◌, ◌≡◌, refl, sym, true, false, some, ◌==◌, [], ◌∷◌, ◌++◌, arith, length,
  length-append,
}
use ak_lisp.Lists.{Header, append, count_up}
use ak_lisp.Lists.Memory.{Entry, Heap, put_new, put_next, put_prev}
use ak_lisp.Lists.Links.{
  Cells, has, last_of, Distinct, Chain, nil, cons, has-append, has-last_of, ne_of_has,
  last_of-append, Chain-append, Chain-put_new, Chain-relink_end, Chain-put_prev,
}
use ak_lisp.Lists.Writes.{set_next_lem, set_prev_lem}
use ak_lisp.Lists.Join.{Distinct-append}
use ak_lisp.Lists.Shape.{IsList}

-- The heap after an entry was put behind the last one.
abbrev appended : Heap → ℕ → ℕ → ℕ → Heap
appended h fresh x p = put_prev (put_next (put_new h fresh x) p fresh) fresh p

last_cell :
    {h : Heap} {e b : ℕ} (p x : ℕ) (xs : Cells)
    → Chain h e b ((p, x) ∷ xs)
    → (r : Entry) × (h (last_of p xs) ≡ some r)
last_cell p x [] (cons l c) = (_, l)
last_cell p x ((q, y) ∷ xs) (cons l c) = last_cell q y xs c

abbrev longer : Header → ℕ → ℕ → Header
longer l fresh head = record l {
  li_head = head;
  li_last = fresh;
  li_count = count_up l.li_count;
  is_nil = false;
}

append-run_nil :
    (h : Heap) (l : Header) (fresh x : ℕ)
    → (l.li_head == 0) ≡ true
    → append fresh l x h ≡ some ((fresh, longer l fresh fresh), put_new h fresh x)
unfolding append
append-run_nil h l fresh x o = rw o

append-run :
    (h : Heap) (l : Header) (fresh x : ℕ) {r s : Entry}
    → (l.li_head == 0) ≡ false
    → (l.li_last == 0) ≡ false
    → (fresh == 0) ≡ false
    → put_new h fresh x l.li_last ≡ some r
    → put_next (put_new h fresh x) l.li_last fresh fresh ≡ some s
    → append fresh l x h ≡ some ((fresh, longer l fresh l.li_head), appended h fresh x l.li_last)
unfolding append
append-run h l fresh x o o' n e e' = rw (
  o,
  set_next_lem (put_new h fresh x) fresh e o',
  set_prev_lem (put_next (put_new h fresh x) l.li_last fresh) l.li_last e' n,
)

new_cell :
    (h : Heap) (fresh x p : ℕ)
    → (fresh == p) ≡ false
    → put_next (put_new h fresh x) p fresh fresh
      ≡ some (record { le_next = 0; le_prev = 0; le_data = x })
unfolding put_next put_new
new_cell h fresh x p o = ground (arith, o)

alone :
    (h : Heap) (fresh x : ℕ)
    → put_new h fresh x fresh ≡ some (record { le_next = 0; le_prev = 0; le_data = x })
unfolding put_new
alone h fresh x = ground arith

Chain-appended :
    {h : Heap} (xs : Cells) (fresh x p y : ℕ)
    → Distinct ((p, y) ∷ xs)
    → has fresh ((p, y) ∷ xs) ≡ false
    → (fresh == last_of p xs) ≡ false
    → Chain h 0 0 ((p, y) ∷ xs)
    → Chain (appended h fresh x (last_of p xs)) 0 0 (((p, y) ∷ xs) ++ ((fresh, x) ∷ []))
Chain-appended {h} xs fresh x p y d new o c =
    let q = last_of p xs in
    let g = put_next (put_new h fresh x) q fresh in
    let here : put_prev g fresh q fresh ≡ some (record { le_next = 0; le_prev = q; le_data = x }) =
      unfold put_prev in ground (arith, new_cell h fresh x q o) in
    Chain-append ((fresh, x) ∷ [])
      (Chain-put_prev fresh q (Chain-relink_end fresh d (Chain-put_new fresh x c new)) new)
      (cons here nil)

Distinct-snoc :
    (xs : Cells) (fresh x : ℕ)
    → Distinct xs
    → has fresh xs ≡ false
    → Distinct (xs ++ ((fresh, x) ∷ []))
Distinct-snoc xs fresh x d new =
    Distinct-append xs ((fresh, x) ∷ []) d (refl, tt)
      (λ a i. ground (arith, ne_of_has a fresh xs i new))

-- `akl_list_append` with an entry that the list does not hold yet puts the data at its end.
pub append-IsList :
    {h : Heap} {l : Header} (xs : Cells) (fresh x : ℕ)
    → IsList h l xs
    → (fresh == 0) ≡ false
    → has fresh xs ≡ false
    → length xs + 1 < 2 ^ 32
    → (l' : Header) × (h' : Heap) × (append fresh l x h ≡ some ((fresh, l'), h'))
      × IsList h' l' (xs ++ ((fresh, x) ∷ []))
append-IsList {h} {l} [] fresh x w o new small = (
  longer l fresh fresh,
  put_new h fresh x,
  append-run_nil h l fresh x (ground (arith, w.head)),
  record {
    head = refl;
    last = refl;
    count = ground (arith, w.count);
    small = omega arith;
    chain = cons (alone h fresh x) nil;
    distinct = (refl, tt);
    no_null = ground (arith, o);
  },
)
append-IsList {h} {l} ((p, y) ∷ xs) fresh x w o new small =
    let q = last_of p xs in
    let cells = (p, y) ∷ xs in
    let ne = ne_of_has q fresh cells (has-last_of p y xs) new in
    let ne' : (fresh == q) ≡ false = ground (arith, ne) in
    let q_some = ne_of_has q 0 cells (has-last_of p y xs) w.no_null in
    let (r, old) = last_cell p y xs w.chain in
    let old' : put_new h fresh x q ≡ some r = unfold put_new in rw (ne, old) in
    let hd : (l.li_head == 0) ≡ false = ground (arith, w.head, w.no_null) in
    let at_last = sym w.last in
    let tl : (l.li_last == 0) ≡ false = subst (λ z. (z == 0) ≡ false) at_last q_some in
    let run =
      append-run h l fresh x hd tl o (subst (λ z. put_new h fresh x z ≡ some r) at_last old')
        (new_cell h fresh x l.li_last (subst (λ z. (fresh == z) ≡ false) at_last ne')) in
    (
      longer l fresh l.li_head,
      appended h fresh x l.li_last,
      run,
      record {
        head = w.head;
        last = sym (last_of-append 0 cells ((fresh, x) ∷ []));
        count = ground (arith, w.count, small, length-append cells ((fresh, x) ∷ []));
        small = rw (length-append cells ((fresh, x) ∷ [])) small;
        chain =
            subst (λ z. Chain (appended h fresh x z) 0 0 (cells ++ ((fresh, x) ∷ []))) at_last
              (Chain-appended xs fresh x p y w.distinct new ne' w.chain);
        distinct = Distinct-snoc cells fresh x w.distinct new;
        no_null = ground (arith, o, w.no_null, has-append 0 cells ((fresh, x) ∷ []));
      },
    )
