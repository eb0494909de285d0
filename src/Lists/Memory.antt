-- ===== src/Lists/Memory.antt =====
-- Entries at addresses, and commands that read and write them. Address 0 is NULL.
use mathlib.Core.Option
use ak_lisp.Base.{ℕ, Option, none, some, ◌==◌, if◌then◌else◌}

pub record Entry : Type 0 where
  pub le_next : ℕ
  pub le_prev : ℕ
  pub le_data : ℕ

abbrev pub Heap : Type 0
Heap = ℕ → Option Entry

-- `none` is a fault: an access through NULL or through an address that holds no entry, or an
-- assertion that does not hold.
abbrev pub Cmd : Type 0 → Type 0
Cmd A = Heap → Option (A × Heap)

abbrev pub pure : {A : Type 0} → A → Cmd A
pure a h = some (a, h)

abbrev pub and_then : {A B : Type 0} → Option (A × Heap) → (A → Cmd B) → Option (B × Heap)
and_then none f = none
and_then (some (a, h)) f = f a h

-- `assert(p)`
abbrev pub assert_pointer : ℕ → Cmd (Unit {0})
assert_pointer p h = if p == 0 then none else some (tt, h)

infixl 5 ◌>>=◌ ◌>>◌
abbrev pub ◌>>=◌ : {A B : Type 0} → Cmd A → (A → Cmd B) → Cmd B
m >>= f = λ h. and_then (m h) f

abbrev pub ◌>>◌ : {B : Type 0} → Cmd (Unit {0}) → Cmd B → Cmd B
m >> k = m >>= λ _. k

unfoldable pub load : ℕ → Cmd Entry
load p h = if p == 0 then none else Option.map (λ r. (r, h)) (h p)

-- The heap after `p->le_next = n`.
unfoldable pub put_next : Heap → ℕ → ℕ → Heap
put_next h p n a =
    if a == p then Option.map (λ (r : Entry). record r { le_next = n }) (h a) else h a

unfoldable pub put_prev : Heap → ℕ → ℕ → Heap
put_prev h p n a =
    if a == p then Option.map (λ (r : Entry). record r { le_prev = n }) (h a) else h a

unfoldable pub set_next : ℕ → ℕ → Cmd (Unit {0})
set_next p n h = elim (load p h) [ none ↦ none | some _ ↦ some (tt, put_next h p n) ]

unfoldable pub set_prev : ℕ → ℕ → Cmd (Unit {0})
set_prev p n h = elim (load p h) [ none ↦ none | some _ ↦ some (tt, put_prev h p n) ]

-- `if (p) p->le_next = n;`
unfoldable pub link_next : ℕ → ℕ → Cmd (Unit {0})
link_next p n = if p == 0 then pure tt else set_next p n

unfoldable pub link_prev : ℕ → ℕ → Cmd (Unit {0})
link_prev p n = if p == 0 then pure tt else set_prev p n

-- `akl_new_list_entry`, and the write of `le_data` that follows each call of it
unfoldable pub put_new : Heap → ℕ → ℕ → Heap
put_new h p x a = if a == p then some (record { le_next = 0; le_prev = 0; le_data = x }) else h a

abbrev pub new_entry : ℕ → ℕ → Cmd (Unit {0})
new_entry fresh x h = some (tt, put_new h fresh x)
