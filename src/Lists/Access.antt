-- ===== src/Lists/Access.antt =====
-- Reading a list by index, and what `akl_list_find`, `akl_list_remove` and a shift of the empty list do.
use mathlib.Core.Path.{subst}
use ak_lisp.Base.{
  ℕ, zero, suc, ◌-◌, ◌^◌, ◌≡◌, ◌≢◌, refl, ap, sym, ◌∙◌, Bool, true, false, some, ◌==◌,
  if◌then◌else◌, [], ◌∷◌, arith,
}
use ak_lisp.Lists.{
  Header, shift_entry, find, remove, remove_entry, front, walk_next, index_entry, count_down,
  link_prev,
}
use ak_lisp.Lists.Memory.{Entry, Heap, link_prev}
use ak_lisp.Lists.Links.{Cells, has, first, Chain}
use ak_lisp.Lists.Writes.{load_lem}
use ak_lisp.Lists.Shape.{IsList}
use ak_lisp.Lists.Remove.{remove_entry-IsList, first_entry, first_rest}

-- The address of the nth cell, 0 past the end.
abbrev pub nth_address : Cells → ℕ → ℕ
nth_address [] n = 0
nth_address ((a, _) ∷ xs) zero = a
nth_address ((a, _) ∷ xs) (suc n) = nth_address xs n

nth_nil : (n : ℕ) → nth_address [] n ≡ 0
nth_nil zero = refl
nth_nil (suc n) = refl

walk_next_lem :
    {h : Heap} {b : ℕ} (a x : ℕ) (ys : Cells) (n : ℕ)
    → has 0 ((a, x) ∷ ys) ≡ false
    → Chain h 0 b ((a, x) ∷ ys)
    → walk_next n a h ≡ some (nth_address ((a, x) ∷ ys) n, h)
unfolding walk_next
walk_next_lem a x ys zero z c = refl
walk_next_lem {h} a x [] (suc n) z c =
    rw (load_lem h (first_entry c) (ground (arith, z))) (ap (λ m. some (m, h)) (sym (nth_nil n)))
walk_next_lem {h} a x ((q, y) ∷ ys) (suc n) z c =
    let o : (q == 0) ≡ false = ground (arith, z) in
    rw (load_lem h (first_entry c) (ground (arith, z)), o)
      (walk_next_lem q y ys n (ground (arith, z)) (first_rest c))

-- For a list that is not NIL, the entry at index n from the front is the nth cell, and NULL when
-- the list has no more than n cells.
pub index_entry-nth_address :
    {h : Heap} {l : Header} (xs : Cells) (n : ℕ)
    → IsList h l xs
    → l.is_nil ≡ false
    → index_entry l (front n) h ≡ some (nth_address xs n, h)
unfolding index_entry
index_entry-nth_address {h} [] n w o = rw (o, w.head) (ap (λ m. some (m, h)) (sym (nth_nil n)))
index_entry-nth_address {h} ((a, x) ∷ xs) n w o =
    let z : (a == 0) ≡ false = ground (arith, w.no_null) in
    rw (o, w.head, z) (walk_next_lem a x xs n w.no_null w.chain)

remove-run :
    (h : Heap) (same : ℕ → ℕ → Bool) (l : Header) (y : ℕ) {r : Entry} {l' : Header} {h' : Heap}
    → (y == 0) ≡ false
    → (l.li_head == 0) ≡ false
    → h l.li_head ≡ some r
    → remove_entry l l.li_head h ≡ some (l', h')
    → remove same l y h ≡ some ((l.li_head, l'), h')
unfolding remove find
remove-run h same l y ne o e e' = rw (ne, o, load_lem h e o, e')

-- `akl_list_remove` takes out the first cell of a list that has one, whatever data but NULL it is asked
-- for and whatever the comparison says of any two data.
pub remove-first :
    {h : Heap} {l : Header} (same : ℕ → ℕ → Bool) (a x y : ℕ) (ys : Cells)
    → y ≢ 0
    → IsList h l ((a, x) ∷ ys)
    → (l' : Header) × (h' : Heap) × (remove same l y h ≡ some ((a, l'), h')) × IsList h' l' ys
remove-first {h} {l} same a x y ys ne w =
    let asked : (y == 0) ≡ false = ground (arith, ne) in
    let (l', h', e, w') = remove_entry-IsList a x [] ys w in
    let here = sym w.head in
    let o : (a == 0) ≡ false = ground (arith, w.no_null) in
    let o' : (l.li_head == 0) ≡ false = subst (λ q. (q == 0) ≡ false) here o in
    let at =
      subst (λ q. h q ≡ some (record { le_next = first ys 0; le_prev = 0; le_data = x })) here
        (first_entry w.chain) in
    let e' = subst (λ q. remove_entry l q h ≡ some (l', h')) here e in
    let run = remove-run h same l y asked o' at e' in
    (l', h', subst (λ q. remove same l y h ≡ some ((q, l'), h')) w.head run, w')

shift_entry-run_nil :
    (h : Heap) (l : Header)
    → (l.li_head == 0) ≡ true
    → (l' : Header) × (shift_entry l h ≡ some ((l.li_head, l'), h))
      × (l'.li_count ≡ count_down l.li_count)
unfolding shift_entry link_prev
shift_entry-run_nil h l o =
    let l' = record l {
      li_head = 0;
      li_last = if l.li_head == l.li_last then 0 else l.li_last;
      li_count = count_down l.li_count;
    } in
    let run : shift_entry l h ≡ some ((l.li_head, l'), h) = rw o refl in (l', run, refl)

-- `akl_list_shift_entry` of an empty list returns NULL, and the count of the header that it leaves
-- is 2^32 - 1, so that the header is not that of an empty list any more.
pub shift_entry-nil :
    {h : Heap} {l : Header}
    → IsList h l []
    → (l' : Header) × (shift_entry l h ≡ some ((0, l'), h))
      × (l'.li_count ≡ 2 ^ 32 - 1)
      × (¬ IsList h l' [])
shift_entry-nil {h} {l} w =
    let (l', e, c) = shift_entry-run_nil h l (rw w.head refl) in
    let n : l'.li_count ≡ 2 ^ 32 - 1 = c ∙ ap count_down w.count in
    (
      l',
      subst (λ q. shift_entry l h ≡ some ((q, l'), h)) w.head e,
      n,
      λ v. ground (arith, n, v.count),
    )
