-- ===== src/Lists/Tests.antt =====
-- A list of three entries in a concrete heap, runs of the list functions on it, and their theorems at it.
use ak_lisp.Base.{ℕ, ◌≡◌, refl, Bool, false, none, some, ◌==◌, if◌then◌else◌, [], ◌∷◌, ◌++◌, arith}
use ak_lisp.Lists.{Header, insert_head, append, remove_entry, pop_entry}
use ak_lisp.Lists.Memory.{Heap}
use ak_lisp.Lists.Links.{Cells, cons, nil}
use ak_lisp.Lists.Shape.{IsList}
use ak_lisp.Lists.Remove.{remove_entry-IsList}
use ak_lisp.Lists.Ends.{pop_entry-IsList}
use ak_lisp.Lists.Append.{append-IsList}
use ak_lisp.Lists.Insert.{insert_head-IsList}

abbrev entries : Heap
entries a =
    if a == 10
    then some (record { le_next = 20; le_prev = 0; le_data = 1 })
    else if a == 20
    then some (record { le_next = 30; le_prev = 10; le_data = 2 })
    else if a == 30
    then some (record { le_next = 0; le_prev = 20; le_data = 3 })
    else none

abbrev three : Header
three = record { li_head = 10; li_last = 30; li_count = 3; is_quoted = false; is_nil = false }

abbrev cells : Cells
cells = (10, 1) ∷ (20, 2) ∷ (30, 3) ∷ []

abbrev equal : ℕ → ℕ → Bool
equal a b = a == b

three-IsList : IsList entries three cells
three-IsList = record {
  head = refl;
  last = refl;
  count = refl;
  small = omega arith;
  chain = cons refl (cons refl (cons refl nil));
  distinct = (refl, (refl, (refl, tt)));
  no_null = refl;
}

remove_entry-IsList_example :
    (l' : Header) × (h' : Heap) × (remove_entry three 20 entries ≡ some (l', h'))
    × IsList h' l' ((10, 1) ∷ (30, 3) ∷ [])
remove_entry-IsList_example = remove_entry-IsList 20 2 ((10, 1) ∷ []) ((30, 3) ∷ []) three-IsList

pop_entry-IsList_example :
    (l' : Header) × (h' : Heap) × (pop_entry three entries ≡ some ((30, l'), h'))
    × IsList h' l' ((10, 1) ∷ (20, 2) ∷ [])
pop_entry-IsList_example = pop_entry-IsList ((10, 1) ∷ (20, 2) ∷ []) 30 3 three-IsList

append-IsList_example :
    (l' : Header) × (h' : Heap) × (append 40 three 4 entries ≡ some ((40, l'), h'))
    × IsList h' l' (cells ++ ((40, 4) ∷ []))
append-IsList_example = append-IsList cells 40 4 three-IsList refl refl (omega arith)

insert_head-IsList_example :
    (l' : Header) × (h' : Heap) × (insert_head 40 three 4 entries ≡ some ((40, l'), h'))
    × IsList h' l' ((40, 4) ∷ cells)
insert_head-IsList_example = insert_head-IsList cells 40 4 three-IsList refl refl (omega arith)
