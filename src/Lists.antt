-- ===== src/Lists.antt =====
-- The doubly linked lists of src/list.c over an explicit heap of entries.
-- A `struct akl_list` is a value, its header: a function that updates one returns the new header.
-- An entry is its address; the data that it points to is an address too, and 0 is NULL.
pub mod Memory
pub mod Links
pub mod Writes
pub mod Shape
pub mod Join
pub mod Remove
pub mod Ends
pub mod Append
pub mod Insert
pub mod Access
mod Tests
use ak_lisp.Base.{
  ℕ, zero, suc, ◌+◌, ◌-◌, ◌^◌, Bool, true, false, not, ◌&&◌, ◌||◌, Option, none, some, ◌==◌,
  if◌then◌else◌,
}
use ak_lisp.Vector.{u32}
use ak_lisp.Lists.Memory.{
  Entry, Heap, Cmd, pure, ◌>>=◌, ◌>>◌, load, new_entry, assert_pointer, link_next, link_prev,
  set_next, set_prev,
}

pub record Header : Type 0 where
  pub li_head : ℕ
  pub li_last : ℕ
  pub li_count : ℕ
  pub is_quoted : Bool
  pub is_nil : Bool

-- `akl_init_list`
abbrev pub init : Header
init = record { li_head = 0; li_last = 0; li_count = 0; is_quoted = false; is_nil = false }

abbrev pub count_up : ℕ → ℕ
count_up n = u32 (n + 1)

-- `li_count--` on an `unsigned int`
abbrev pub count_down : ℕ → ℕ
count_down n = u32 (n + 2 ^ 32 - 1)

-- `fresh` is the entry that the allocator returns.
pub append : (fresh : ℕ) → Header → ℕ → Cmd (ℕ × Header)
append fresh l x = do
  new_entry fresh x
  if l.li_head == 0 then pure tt else (do set_next l.li_last fresh; set_prev fresh l.li_last)
  pure (
    fresh,
    record l {
      li_head = if l.li_head == 0 then fresh else l.li_head;
      li_last = fresh;
      li_count = count_up l.li_count;
      is_nil = false;
    },
  )

pub insert_head : (fresh : ℕ) → Header → ℕ → Cmd (ℕ × Header)
insert_head fresh l x = do
  new_entry fresh x
  if l.li_head == 0 then pure tt else (do set_prev l.li_head fresh; set_next fresh l.li_head)
  pure (
    fresh,
    record l {
      li_head = fresh;
      li_last = if l.li_head == 0 then fresh else l.li_last;
      li_count = count_up l.li_count;
      is_nil = false;
    },
  )

-- `p->le_data` and `p->le_next`, with NULL for NULL
abbrev pub data_or_null : ℕ → Cmd ℕ
data_or_null p = if p == 0 then pure 0 else (do r ← load p; pure r.le_data)

abbrev next_or_null : ℕ → Cmd ℕ
next_or_null p = if p == 0 then pure 0 else (do r ← load p; pure r.le_next)

pub head : Header → Cmd ℕ
head l = data_or_null l.li_head

pub last : Header → Cmd ℕ
last l = data_or_null l.li_last

unfoldable pub shift_entry : Header → Cmd (ℕ × Header)
shift_entry l = do
  nhead ← next_or_null l.li_head
  link_prev nhead 0
  pure (
    l.li_head,
    record l {
      li_head = nhead;
      li_last = if l.li_head == l.li_last then nhead else l.li_last;
      li_count = count_down l.li_count;
    },
  )

pub shift : Header → Cmd (ℕ × Header)
shift l = do (ent, l') ← shift_entry l; x ← data_or_null ent; pure (x, l')

-- The header after `ent`, between `prev` and `next`, was taken out.
abbrev pub without : Header → ℕ → ℕ → ℕ → Header
without l ent prev next = record l {
  li_head = if l.li_head == ent then next else l.li_head;
  li_last = if l.li_last == ent then prev else l.li_last;
  li_count = count_down l.li_count;
}

pub remove_entry : Header → ℕ → Cmd Header
remove_entry l ent = if ent == 0 then pure l else do
  r ← load ent
  link_next r.le_prev r.le_next
  link_prev r.le_next r.le_prev
  pure (without l ent r.le_prev r.le_next)

pub pop_entry : Header → Cmd (ℕ × Header)
pop_entry l =
    if l.li_last == 0 then pure (0, l) else (do l' ← remove_entry l l.li_last; pure (l.li_last, l'))

pub pop : Header → Cmd (ℕ × Header)
pop l = do (ent, l') ← pop_entry l; x ← data_or_null ent; pure (x, l')

-- The entry that is returned, and what is stored through `ind`, if anything. `same` says that the
-- comparison gave 0. The `return` belongs to the loop, not to the test.
pub find : (same : ℕ → ℕ → Bool) → Header → ℕ → Cmd (ℕ × Option ℕ)
find same l x =
    if l.li_head == 0
    then pure (0, none)
    else (do r ← load l.li_head; pure (l.li_head, if same r.le_data x then some 0 else none))

pub remove : (same : ℕ → ℕ → Bool) → Header → ℕ → Cmd (ℕ × Header)
unfolding find remove_entry
remove same l x = do
  assert_pointer x
  (ent, _) ← find same l x
  l' ← remove_entry l ent
  pure (ent, l')

-- A signed index: `front n` is n, and `back n` is -(n + 1).
pub data Index : Type 0 where
  front : ℕ → Index
  back : ℕ → Index

pub walk_next : ℕ → ℕ → Cmd ℕ
walk_next zero ent = pure ent
walk_next (suc n) ent = do r ← load ent; if r.le_next == 0 then pure 0 else walk_next n r.le_next

pub walk_prev : ℕ → ℕ → Cmd ℕ
walk_prev zero ent = pure ent
walk_prev (suc n) ent = do r ← load ent; if r.le_prev == 0 then pure 0 else walk_prev n r.le_prev

abbrev fault : Cmd ℕ
fault h = none

-- The assertion that the list is not NIL is a fault here.
pub index_entry : Header → Index → Cmd ℕ
index_entry l i =
    if l.is_nil
    then fault
    else if l.li_head == 0
    then pure 0
    else elim i [ front n ↦ walk_next n l.li_head | back n ↦ walk_prev n l.li_last ]

pub index : Header → Index → Cmd ℕ
index l i = do ent ← index_entry l i; data_or_null ent

-- `none` is NULL.
pub cdr : Header → Cmd (Option Header)
cdr l =
    if l.is_nil || l.li_count == 0
    then pure none
    else if l.li_count == 1
    then pure (some (record init { is_nil = true }))
    else do
      r ← load l.li_head
      pure (
          some (record init {
            li_head = r.le_next;
            li_last = l.li_last;
            li_count = count_down l.li_count;
          }))
