-- ===== src/Lists/Ends.antt =====
-- Taking an entry from either end of a list: shift and pop.
use mathlib.Core.List.{append-nil}
use mathlib.Core.Path.{subst}
use ak_lisp.Base.{ℕ, ◌≡◌, refl, sym, ◌∙◌, false, some, ◌==◌, if◌then◌else◌, [], ◌∷◌, ◌++◌, arith}
use ak_lisp.Lists.{Header, remove_entry, pop_entry, shift_entry, count_down}
use ak_lisp.Lists.Memory.{Heap}
use ak_lisp.Lists.Links.{
  Cells, first, last_of, Distinct, has-append, has-last_of, ne_of_has, last_of-append,
}
use ak_lisp.Lists.Writes.{linked_prev, load_lem, link_prev_lem, IsPointer-first, Chain-link_start}
use ak_lisp.Lists.Shape.{IsList}
use ak_lisp.Lists.Remove.{remove_entry-IsList, first_entry, first_rest}

pub pop_entry-run :
    (h : Heap) (l : Header) {l' : Header} {h' : Heap}
    → (l.li_last == 0) ≡ false
    → remove_entry l l.li_last h ≡ some (l', h')
    → pop_entry l h ≡ some ((l.li_last, l'), h')
unfolding pop_entry
pop_entry-run h l o e = rw (o, e)

-- `akl_list_pop_entry` of a list with a last cell returns its entry and leaves the cells before it.
pub pop_entry-IsList :
    {h : Heap} {l : Header} (xs : Cells) (a x : ℕ)
    → IsList h l (xs ++ ((a, x) ∷ []))
    → (l' : Header) × (h' : Heap) × (pop_entry l h ≡ some ((a, l'), h')) × IsList h' l' xs
unfolding pop_entry
pop_entry-IsList {h} {l} xs a x w =
    let (l', h', e, w') = remove_entry-IsList a x xs [] w in
    let at_end : l.li_last ≡ a = w.last ∙ last_of-append 0 xs ((a, x) ∷ []) in
    let o : (a == 0) ≡ false = ground (arith, w.no_null, has-append 0 xs ((a, x) ∷ [])) in
    let e' : remove_entry l l.li_last h ≡ some (l', h') =
      subst (λ q. remove_entry l q h ≡ some (l', h')) (sym at_end) e in
    let o' : (l.li_last == 0) ≡ false = subst (λ q. (q == 0) ≡ false) (sym at_end) o in
    let run = subst (λ q. pop_entry l h ≡ some ((q, l'), h')) at_end (pop_entry-run h l o' e') in
    (l', h', run, subst (IsList h' l') (append-nil xs) w')

-- The last cell once the first is out.
last_of-shift :
    (a x : ℕ) (ys : Cells)
    → Distinct ((a, x) ∷ ys)
    → (if a == last_of a ys then first ys 0 else last_of a ys) ≡ last_of 0 ys
last_of-shift a x [] d = ground arith
last_of-shift a x ((q, y) ∷ ys) d =
    let apart = ne_of_has (last_of q ys) a ((q, y) ∷ ys) (has-last_of q y ys) d.0 in
    ground (arith, apart)

-- `akl_list_shift_entry` of a list with a first cell returns its entry and leaves the rest.
pub shift_entry-IsList :
    {h : Heap} {l : Header} (a x : ℕ) (ys : Cells)
    → IsList h l ((a, x) ∷ ys)
    → (l' : Header) × (h' : Heap) × (shift_entry l h ≡ some ((a, l'), h')) × IsList h' l' ys
unfolding shift_entry
shift_entry-IsList {h} {l} a x ys w =
    let o : (a == 0) ≡ false = ground (arith, w.no_null) in
    let n = first ys 0 in
    (
      record l {
        li_head = n;
        li_last = if l.li_head == l.li_last then n else l.li_last;
        li_count = count_down l.li_count;
      },
      linked_prev h n 0,
      rw (
        w.head,
        o,
        load_lem h (first_entry w.chain) o,
        link_prev_lem h n 0 (IsPointer-first (first_rest w.chain)),
        shift_entry,
      ),
      record {
        head = refl;
        last = rw (w.head, w.last) (last_of-shift a x ys w.distinct);
        count = ground (arith, w.count, w.small);
        small = ground (arith, w.small);
        chain = Chain-link_start ys 0 w.distinct.1 (ground (arith, w.no_null)) (first_rest w.chain);
        distinct = w.distinct.1;
        no_null = ground (arith, w.no_null);
      },
    )
