-- ===== src/Lists/Writes.antt =====
-- The conditional writes of src/list.c to a chain: what each leaves.
use ak_lisp.Base.{
  ℕ, ◌≡◌, refl, ◌⊎◌, inl, inr, false, some, ◌==◌, if◌then◌else◌, [], ◌∷◌, arith, Bool-cases,
}
use ak_lisp.Lists.Memory.{
  Entry, Heap, load, put_next, put_prev, link_next, link_prev, set_next, set_prev,
}
use ak_lisp.Lists.Links.{
  Cells, has, first, last_of, Distinct, Chain, nil, cons, has-last_of, ne_of_has, Chain-put_next,
  Chain-put_prev, Chain-relink_end, Chain-relink_start,
}

-- The heap after `if (p) p->le_next = n;`, and after the same for `le_prev`.
abbrev pub linked_next : Heap → ℕ → ℕ → Heap
linked_next h p n = if p == 0 then h else put_next h p n

abbrev pub linked_prev : Heap → ℕ → ℕ → Heap
linked_prev h p n = if p == 0 then h else put_prev h p n

-- NULL, or an entry.
abbrev pub IsPointer : Heap → ℕ → Type 0
IsPointer h p = (p ≡ 0) ⊎ ((r : Entry) × (h p ≡ some r))

pub load_lem :
    (h : Heap) {p : ℕ} {r : Entry} → h p ≡ some r → (p == 0) ≡ false → load p h ≡ some (r, h)
unfolding load
load_lem h e o = rw (load, o, e)

pub set_next_lem :
    (h : Heap) {p : ℕ} {r : Entry} (n : ℕ)
    → h p ≡ some r
    → (p == 0) ≡ false
    → set_next p n h ≡ some (tt, put_next h p n)
unfolding set_next load
set_next_lem h n e o = rw (set_next, load, o, e)

pub set_prev_lem :
    (h : Heap) {p : ℕ} {r : Entry} (n : ℕ)
    → h p ≡ some r
    → (p == 0) ≡ false
    → set_prev p n h ≡ some (tt, put_prev h p n)
unfolding set_prev load
set_prev_lem h n e o = rw (set_prev, load, o, e)

pub link_next_lem :
    (h : Heap) (p n : ℕ) → IsPointer h p → link_next p n h ≡ some (tt, linked_next h p n)
unfolding link_next
link_next_lem h p n (inl z) = rw z
link_next_lem h p n (inr (r, e)) = elim (Bool-cases (p == 0)) [
  | inl null ↦ rw null
  | inr o ↦ rw (o, set_next_lem h n e o)
]

pub link_prev_lem :
    (h : Heap) (p n : ℕ) → IsPointer h p → link_prev p n h ≡ some (tt, linked_prev h p n)
unfolding link_prev
link_prev_lem h p n (inl z) = rw z
link_prev_lem h p n (inr (r, e)) = elim (Bool-cases (p == 0)) [
  | inl null ↦ rw null
  | inr o ↦ rw (o, set_prev_lem h n e o)
]

-- An entry stays an entry.
pub IsPointer-linked_next : (h : Heap) (p n q : ℕ) → IsPointer h q → IsPointer (linked_next h p n) q
IsPointer-linked_next h p n q (inl z) = inl z
IsPointer-linked_next h p n q (inr (r, e)) = elim (Bool-cases (p == 0)) [
  | inl null ↦ rw null (inr (r, e))
  | inr o ↦ rw o (elim (Bool-cases (q == p)) [
    | inl here ↦ inr (record r { le_next = n }, unfold put_next in rw (here, e))
    | inr there ↦ inr (r, unfold put_next in rw (there, e))
  ])
]

-- The two neighbours of a place in a chain between NULLs.
pub IsPointer-first : {h : Heap} {b : ℕ} {xs : Cells} → Chain h 0 b xs → IsPointer h (first xs 0)
IsPointer-first nil = inl refl
IsPointer-first (cons l c) = inr (_, l)

IsPointer-last_of_cons :
    {h : Heap} {e b : ℕ} {xs : Cells} (p x : ℕ)
    → Chain h e b ((p, x) ∷ xs)
    → (r : Entry) × (h (last_of p xs) ≡ some r)
IsPointer-last_of_cons {xs = []} p x (cons l c) = (_, l)
IsPointer-last_of_cons {xs = (q, y) ∷ xs} p x (cons l c) = IsPointer-last_of_cons q y c

pub IsPointer-last_of :
    {h : Heap} {e : ℕ} (xs : Cells) → Chain h e 0 xs → IsPointer h (last_of 0 xs)
IsPointer-last_of [] c = inl refl
IsPointer-last_of ((p, x) ∷ xs) c = inr (IsPointer-last_of_cons p x c)

module _ {h : Heap} {e : ℕ} where
  pub Chain-linked_next :
      {b : ℕ} {xs : Cells} (p n : ℕ)
      → Chain h e b xs
      → (has p xs ≡ false) ⊎ (p ≡ 0)
      → Chain (linked_next h p n) e b xs
  Chain-linked_next p n c (inr z) = rw z c
  Chain-linked_next p n c (inl o) = elim (Bool-cases (p == 0)) [
    | inl null ↦ rw null c
    | inr some_p ↦ rw some_p (Chain-put_next p n c o)
  ]

  pub Chain-linked_prev :
      {b : ℕ} {xs : Cells} (p n : ℕ)
      → Chain h e b xs
      → (has p xs ≡ false) ⊎ (p ≡ 0)
      → Chain (linked_prev h p n) e b xs
  Chain-linked_prev p n c (inr z) = rw z c
  Chain-linked_prev p n c (inl o) = elim (Bool-cases (p == 0)) [
    | inl null ↦ rw null c
    | inr some_p ↦ rw some_p (Chain-put_prev p n c o)
  ]

  pub Chain-link_end :
      (xs : Cells) (n : ℕ)
      → Distinct xs
      → has 0 xs ≡ false
      → Chain h e 0 xs
      → Chain (linked_next h (last_of 0 xs) n) n 0 xs
  Chain-link_end [] n d z c = nil
  Chain-link_end ((p, x) ∷ xs) n d z c =
      let o : (last_of p xs == 0) ≡ false =
        ne_of_has (last_of p xs) 0 ((p, x) ∷ xs) (has-last_of p x xs) z in
      rw o (Chain-relink_end n d c)

  pub Chain-link_start :
      {b : ℕ} (xs : Cells) (n : ℕ)
      → Distinct xs
      → has 0 xs ≡ false
      → Chain h e b xs
      → Chain (linked_prev h (first xs e) n) e n xs
  Chain-link_start [] n d z c = nil
  Chain-link_start ((p, x) ∷ xs) n d z c =
      let o : (p == 0) ≡ false = ground arith in rw o (Chain-relink_start n d c)
