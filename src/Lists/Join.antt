-- ===== src/Lists/Join.antt =====
-- Cutting a chain and joining its parts: the writes that take an entry out of a list.
use ak_lisp.Base.{ℕ, ◌≡◌, ◌⊎◌, inl, inr, refl, true, false, [], ◌∷◌, ◌++◌, arith, Bool-cases}
use ak_lisp.Lists.Memory.{Heap}
use ak_lisp.Lists.Links.{
  Cells, has, first, last_of, Distinct, Chain, has-append, has-last_of, Chain-append,
}
use ak_lisp.Lists.Writes.{
  linked_next, linked_prev, Chain-linked_next, Chain-linked_prev, Chain-link_end, Chain-link_start,
}

abbrev pub Disjoint : Cells → Cells → Type 0
Disjoint xs ys = (a : ℕ) → has a xs ≡ true → has a ys ≡ false

pub Distinct-parts :
    (xs ys : Cells) → Distinct (xs ++ ys) → Distinct xs × Distinct ys × Disjoint xs ys
Distinct-parts [] ys d = (tt, d, λ a i. ground arith)
Distinct-parts ((p, x) ∷ xs) ys (o, d) =
    let (dx, dy, apart) = Distinct-parts xs ys d in
    (
      (ground (arith, has-append p xs ys), dx),
      dy,
      λ a i. ground (arith, has-append a xs ys, has-append p xs ys, apart a),
    )

pub Distinct-append :
    (xs ys : Cells) → Distinct xs → Distinct ys → Disjoint xs ys → Distinct (xs ++ ys)
Distinct-append [] ys dx dy apart = dy
Distinct-append ((p, x) ∷ xs) ys (o, dx) dy apart = (
  ground (arith, has-append p xs ys, apart p),
  Distinct-append xs ys dx dy (λ a i. apart a (ground arith)),
)

pub first-outside :
    (xs ys : Cells) → Disjoint xs ys → (has (first ys 0) xs ≡ false) ⊎ (first ys 0 ≡ 0)
first-outside xs [] apart = inr refl
first-outside xs ((q, y) ∷ ys) apart = elim (Bool-cases (has q xs)) [
  | inr out ↦ inl out
  | inl both ↦ absurd (ground (arith, apart q both))
]

last_of-outside :
    (xs ys : Cells) → Disjoint xs ys → (has (last_of 0 xs) ys ≡ false) ⊎ (last_of 0 xs ≡ 0)
last_of-outside [] ys apart = inr refl
last_of-outside ((p, x) ∷ xs) ys apart = inl (apart (last_of p xs) (has-last_of p x xs))

-- The heap in which the last of `xs` and the first of `ys` are neighbours.
abbrev pub joined : Heap → Cells → Cells → Heap
joined h xs ys = linked_prev (linked_next h (last_of 0 xs) (first ys 0)) (first ys 0) (last_of 0 xs)

pub Chain-joined :
    {h : Heap} {e b : ℕ} (xs ys : Cells)
    → Distinct (xs ++ ys)
    → has 0 (xs ++ ys) ≡ false
    → Chain h e 0 xs
    → Chain h 0 b ys
    → Chain (joined h xs ys) 0 0 (xs ++ ys)
Chain-joined xs ys d z c c' =
    let (dx, dy, apart) = Distinct-parts xs ys d in
    let p = last_of 0 xs in
    let n = first ys 0 in
    let zx : has 0 xs ≡ false = ground (arith, has-append 0 xs ys) in
    let zy : has 0 ys ≡ false = ground (arith, has-append 0 xs ys) in
    Chain-append ys
      (Chain-linked_prev n p (Chain-link_end xs n dx zx c) (first-outside xs ys apart))
      (Chain-link_start ys p dy zy (Chain-linked_next p n c' (last_of-outside xs ys apart)))
