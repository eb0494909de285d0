-- ===== src/Lists/Links.antt =====
-- What a chain of entries is, and how single writes change it.
use mathlib.Core.Path.{subst}
use mathlib.Core.Bool.{false≢true}
use ak_lisp.Base.{
  ℕ, ◌≡◌, refl, sym, ◌∙◌, inl, inr, Bool, true, false, ◌||◌, some, ◌==◌, List, [], ◌∷◌, ◌++◌, arith,
  Bool-cases,
}
use ak_lisp.Lists.Memory.{Heap, put_next, put_prev, put_new}

-- The address and the data of each entry, in order.
abbrev pub Cells : Type 0
Cells = List (ℕ × ℕ)

abbrev pub has : ℕ → Cells → Bool
has a [] = false
has a ((p, _) ∷ xs) = (a == p) || has a xs

-- the address of the first cell, or `e` for none
abbrev pub first : Cells → ℕ → ℕ
first [] e = e
first ((p, _) ∷ xs) e = p

-- the address of the last cell, or `b` for none
abbrev pub last_of : ℕ → Cells → ℕ
last_of b [] = b
last_of b ((p, _) ∷ xs) = last_of p xs

-- No address twice.
abbrev pub Distinct : Cells → Type 0
Distinct [] = Unit {0}
Distinct ((p, _) ∷ xs) = (has p xs ≡ false) × Distinct xs

-- The entries of `xs` lead forward to `e` and back to `b`.
pub data Chain (h : Heap) (e : ℕ) : ℕ → Cells → Type 0 where
  nil : {b : ℕ} → Chain h e b []
  cons :
      {b p x : ℕ} {xs : Cells}
      → h p ≡ some (record { le_next = first xs e; le_prev = b; le_data = x })
      → Chain h e p xs
      → Chain h e b ((p, x) ∷ xs)

pub first-append : (xs ys : Cells) (e : ℕ) → first (xs ++ ys) e ≡ first xs (first ys e)
first-append [] ys e = refl
first-append ((p, x) ∷ xs) ys e = refl

pub last_of-append : (b : ℕ) (xs ys : Cells) → last_of b (xs ++ ys) ≡ last_of (last_of b xs) ys
last_of-append b [] ys = refl
last_of-append b ((p, x) ∷ xs) ys = last_of-append p xs ys

pub has-append : (a : ℕ) (xs ys : Cells) → has a (xs ++ ys) ≡ (has a xs || has a ys)
has-append a [] ys = refl
has-append a ((p, x) ∷ xs) ys = ground (arith, has-append a xs ys)

-- The last cell is among the cells, if there is one.
pub has-last_of : (p x : ℕ) (xs : Cells) → has (last_of p xs) ((p, x) ∷ xs) ≡ true
has-last_of p x [] = ground arith
has-last_of p x ((q, y) ∷ xs) = ground (arith, has-last_of q y xs)

-- A cell that is there is not one that is not there.
pub ne_of_has : (a b : ℕ) (xs : Cells) → has a xs ≡ true → has b xs ≡ false → (a == b) ≡ false
ne_of_has a b xs i o = elim (Bool-cases (a == b)) [
  | inr apart ↦ apart
  | inl same ↦
      let e : a ≡ b = ground arith in absurd (false≢true (sym o ∙ subst (λ c. has c xs ≡ true) e i))
]

-- A change of the heap outside the cells leaves the chain.
pub frame :
    {h g : Heap} {e b : ℕ} {xs : Cells}
    → Chain h e b xs
    → ((a : ℕ) → has a xs ≡ true → g a ≡ h a)
    → Chain g e b xs
frame nil same = nil
frame (cons {p} l c) same =
    cons (same p (ground arith) ∙ l) (frame c (λ a i. same a (ground arith)))

pub Chain-append :
    {h : Heap} {e : ℕ} (ys : Cells) {b : ℕ} {xs : Cells}
    → Chain h (first ys e) b xs
    → Chain h e (last_of b xs) ys
    → Chain h e b (xs ++ ys)
Chain-append ys nil d = d
Chain-append {e} ys (cons {xs} l c) d = cons (rw (first-append xs ys e) l) (Chain-append ys c d)

pub Chain-front :
    {h : Heap} {b e : ℕ} (xs ys : Cells) → Chain h e b (xs ++ ys) → Chain h (first ys e) b xs
Chain-front [] ys c = nil
Chain-front {e} ((p, x) ∷ xs) ys (cons l c) =
    cons (rw (first-append xs ys e) at l) (Chain-front xs ys c)

pub Chain-rest :
    {h : Heap} {b e : ℕ} (xs ys : Cells) → Chain h e b (xs ++ ys) → Chain h e (last_of b xs) ys
Chain-rest [] ys c = c
Chain-rest ((p, x) ∷ xs) ys (cons l c) = Chain-rest xs ys c

module _ {h : Heap} {b e : ℕ} {xs : Cells} (p n : ℕ) (c : Chain h e b xs) where
  -- Writes outside the cells.
  pub Chain-put_next : has p xs ≡ false → Chain (put_next h p n) e b xs
  unfolding put_next
  Chain-put_next o = frame c (λ a i. ground arith)

  pub Chain-put_prev : has p xs ≡ false → Chain (put_prev h p n) e b xs
  unfolding put_prev
  Chain-put_prev o = frame c (λ a i. ground arith)

  pub Chain-put_new : has p xs ≡ false → Chain (put_new h p n) e b xs
  unfolding put_new
  Chain-put_new o = frame c (λ a i. ground arith)

-- A write to the last cell leads the chain to another end.
pub Chain-relink_end :
    {h : Heap} {e : ℕ} (n : ℕ) {b : ℕ} {xs : Cells}
    → Distinct xs
    → Chain h e b xs
    → Chain (put_next h (last_of b xs) n) n b xs
unfolding put_next
Chain-relink_end n d nil = nil
Chain-relink_end n d (cons {xs = []} l c) = cons (ground (arith, l)) nil
Chain-relink_end n d (cons {p} {xs = (q, y) ∷ xs} l c) =
    cons (ground (arith, l, has-last_of q y xs)) (Chain-relink_end n d.1 c)

-- A write to the first cell leads it back to another start.
pub Chain-relink_start :
    {h : Heap} {e : ℕ} (n : ℕ) {b : ℕ} {xs : Cells}
    → Distinct xs
    → Chain h e b xs
    → Chain (put_prev h (first xs e) n) e n xs
Chain-relink_start n d nil = nil
Chain-relink_start {h} {e} n d (cons {p} {x} {xs} l c) =
    let l' : put_prev h p n p ≡ some (record { le_next = first xs e; le_prev = n; le_data = x }) =
      unfold put_prev in ground (arith, l) in
    cons l' (Chain-put_prev p n c d.0)
