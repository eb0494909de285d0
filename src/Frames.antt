-- ===== src/Frames.antt =====
-- The value stack and the frames of src/aklisp.c: a frame is a second header on the last entries of
-- the stack list. A value is the address that an entry holds.
pub mod Segment
pub mod Pop
pub mod Shift
pub mod Start
mod Tests
use ak_lisp.Vector.{u32}
use ak_lisp.Base.{◌+◌, ◌-◌, ◌^◌, ℕ, zero, suc, Bool, Option, none, some, ◌==◌, if◌then◌else◌}
use ak_lisp.Lists.{
  Header, init, append, shift_entry, pop_entry, remove_entry, data_or_null, head, last, pop, index,
  Index, front,
}
use ak_lisp.Lists.Memory.{Cmd, pure, ◌>>=◌, ◌>>◌, load}

-- The fields of `struct akl_context` that hold the stack and the frame, and the parent's stack.
pub record Context : Type 0 where
  pub cx_stack : Header
  pub cx_frame : Header
  pub parent_stack : Option Header

abbrev pub frame_get_count : Context → ℕ
frame_get_count c = c.cx_frame.li_count

pub frame_is_empty : Context → Bool
frame_is_empty c = frame_get_count c == 0

pub frame_at : Context → ℕ → Cmd ℕ
frame_at c ind = index c.cx_frame (front ind)

pub stack_clear : Context → Context
stack_clear c = record c { cx_stack = init }

-- `fresh` is the entry that the allocator returns. A NULL value is refused.
pub stack_push : (fresh : ℕ) → Context → ℕ → Cmd Context
stack_push fresh c value =
    if value == 0
    then pure c
    else do (_, s) ← append fresh c.cx_stack value; pure (record c { cx_stack = s })

unfoldable pub frame_shift : Context → Cmd (ℕ × Context)
frame_shift c = if frame_get_count c == 0 then pure (0, c) else do
  (ent, f) ← shift_entry c.cx_frame
  s ← remove_entry c.cx_stack ent
  x ← data_or_null ent
  pure (x, record c { cx_frame = f; cx_stack = s })

pub frame_head : Context → Cmd ℕ
frame_head c = head c.cx_frame

unfoldable pub frame_pop : Context → Cmd (ℕ × Context)
frame_pop c = if frame_get_count c == 0 then pure (0, c) else do
  (ent, f) ← pop_entry c.cx_frame
  s ← remove_entry c.cx_stack ent
  x ← data_or_null ent
  pure (x, record c { cx_frame = f; cx_stack = s })

-- `while (--fs && akl_list_it_has_prev(it)) akl_list_it_prev(&it);`
pub walk_back : ℕ → ℕ → Cmd ℕ
walk_back zero it = pure it
walk_back (suc n) it =
    if it == 0
    then pure it
    else do r ← load it; if r.le_prev == 0 then pure it else walk_back n r.le_prev

-- `none` is the length -1. A length of 0 wraps, so that the loop goes to the bottom of the stack.
pub init_frame : Option ℕ → Context → Cmd Context
unfolding walk_back
init_frame none c = pure (record c { cx_frame = init })
init_frame (some len) c = do
  it ← walk_back (u32 (len + 2 ^ 32 - 1)) c.cx_stack.li_last
  pure (record c {
    cx_frame = record init { li_head = it; li_last = c.cx_stack.li_last; li_count = len };
  })

-- The loop pops until it gets NULL; `n` is the fuel.
pub frame_destroy : ℕ → Context → Cmd Context
unfolding frame_pop
frame_destroy zero c = λ h. none
frame_destroy (suc n) c =
    let rest = frame_destroy n in do (x, c') ← frame_pop c; if x == 0 then pure c' else rest c'

pub stack_head : Context → Cmd ℕ
stack_head c = head c.cx_stack

pub stack_top : Context → Cmd ℕ
stack_top c = last c.cx_stack

pub frame_top : Context → Cmd ℕ
frame_top c = last c.cx_frame

-- A context with an empty stack takes the value from its parent's.
pub stack_pop : Context → Cmd (ℕ × Context)
stack_pop c = do
  (v, s) ← pop c.cx_stack
  elim c.parent_stack [
    | none ↦ pure (v, record c { cx_stack = s })
    | some p ↦
        if v == 0
        then (do (v', p') ← pop p; pure (v', record c { cx_stack = s; parent_stack = some p' }))
        else pure (v, record c { cx_stack = s })
  ]
