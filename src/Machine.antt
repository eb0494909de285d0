-- ===== src/Machine.antt =====
-- The value stack of src/aklisp.c as the sequence that the module Frames shows it to be, bottom
-- first, with the frame as positions in it; errors as the messages raised, newest last.
pub mod Code
pub mod Exec
pub mod Frame
pub mod OnFrame
mod Tests
use ak_lisp.Base.{
  ℕ, zero, suc, ◌+◌, ◌-◌, Bool, true, false, ◌||◌, Option, none, some, List, [], ◌∷◌, ◌++◌,
  get_elem?, length, take, drop, ◌==◌, ltb, leb, ◌&&◌, if◌then◌else◌,
}
use ak_lisp.Values.{Value}

-- The calls of `akl_raise_error` by their format.
pub data Message : Type 0 where
  undefined_variable not_found not_a_function : ℕ → Message
  gave_null : Option ℕ → Message
  interrupted_warning null_pushed not_a_number zero_division : Message
  null_in_stack expected_arguments expected_type : Message
  no_list_or_string no_parameter no_index no_indexable no_string bad_delimiter : Message
  no_function no_atom no_defun no_arguments : Message

-- `frame_head` is the position of `li_head` of the frame, `none` for NULL; `frame_end` is the position
-- behind `li_last`, 0 for NULL; `frame_count` is its `li_count`. A context without a frame has these as
-- a frame of nothing on an empty stack.
pub record Machine (G : Type 0) : Type 0 where
  pub stack : List Value
  pub frame_head : Option ℕ
  pub frame_end : ℕ
  pub frame_count : ℕ
  pub globals : G
  pub errors : List Message
  pub ai_interrupted : Bool

-- An entry that is behind the end of the stack is NULL.
abbrev pub entry_in : List Value → ℕ → Option ℕ
entry_in s h = if ltb h (length s) then some h else none

-- The head of a frame whose last entry is removed, with what is left of the stack.
abbrev pub head_left : List Value → Option ℕ → Option ℕ
head_left s none = none
head_left s (some h) = entry_in s h

abbrev pub value_from : List Value → Option ℕ → ℕ → Option Value
value_from s none i = none
value_from s (some h) i = get_elem? s (h + i)

-- Where a frame of `len` values begins on a stack. With a length of 0 the loop goes to the bottom; on an
-- empty stack there is no entry, and the frame keeps NULL when values are pushed later.
abbrev pub frame_start : ℕ → List Value → Option ℕ
frame_start len [] = none
frame_start len (v ∷ s) = some (if len == 0 then 0 else length (v ∷ s) - len)

abbrev pub remove_at : List Value → ℕ → List Value
remove_at s i = take i s ++ drop (i + 1) s

module _ {G : Type 0} where
  abbrev pub raise : Message → Machine G → Machine G
  raise e m = record m { errors = m.errors ++ (e ∷ []) }

  abbrev pub stack_push : Value → Machine G → Machine G
  stack_push v m = record m { stack = m.stack ++ (v ∷ []) }

  abbrev pub stack_top : Machine G → Option Value
  stack_top m = get_elem? m.stack (length m.stack - 1)

  -- The parent of a context has the same stack, so that there is nothing more to pop.
  abbrev pub stack_pop : Machine G → Option Value × Machine G
  stack_pop m = (stack_top m, record m { stack = take (length m.stack - 1) m.stack })

  abbrev pub frame_at : Machine G → ℕ → Option Value
  frame_at m i = value_from m.stack m.frame_head i

  -- The stack has no value above the last one of the frame: a pop takes away a value that the frame
  -- still has as an entry. What the frame reads then is not modelled.
  abbrev pub pops_frame : Machine G → Bool
  pops_frame m = ltb 0 m.frame_end && leb (length m.stack) m.frame_end

  -- A call with `argc` arguments takes values of the caller's frame for its own, since an expression
  -- pushed none. What the caller's frame reads then is not modelled.
  abbrev pub takes_frame : ℕ → Machine G → Bool
  takes_frame argc m = ltb 0 m.frame_end && ltb (length m.stack) (m.frame_end + argc)

  -- `akl_init_frame`
  abbrev pub init_frame : ℕ → Machine G → Machine G
  init_frame len m = record m {
    frame_head = frame_start len m.stack;
    frame_end = length m.stack;
    frame_count = len;
  }

  abbrev pub shift_from : Option ℕ → Machine G → Option Value × Machine G
  shift_from none m = (none, record m { frame_count = m.frame_count - 1 })
  shift_from (some h) m = (
    get_elem? m.stack h,
    record m {
      stack = remove_at m.stack h;
      frame_head = entry_in (remove_at m.stack h) h;
      frame_end = if ltb h m.frame_end then m.frame_end - 1 else m.frame_end;
      frame_count = m.frame_count - 1;
    },
  )

  unfoldable pub frame_shift : Machine G → Option Value × Machine G
  frame_shift m = if m.frame_count == 0 then (none, m) else shift_from m.frame_head m

  abbrev pub without_last : Machine G → Machine G
  without_last m = record m {
    stack = remove_at m.stack (m.frame_end - 1);
    frame_head = head_left (remove_at m.stack (m.frame_end - 1)) m.frame_head;
    frame_end = m.frame_end - 1;
    frame_count = m.frame_count - 1;
  }

  unfoldable pub frame_pop : Machine G → Option Value × Machine G
  frame_pop m =
      if (m.frame_count == 0) || (m.frame_end == 0)
      then (none, m)
      else (get_elem? m.stack (m.frame_end - 1), without_last m)

  abbrev pub unless_null : Option Value × Machine G → Machine G → Machine G
  unless_null (none, m) rest = m
  unless_null (some v, m) rest = rest

  -- Pops of the frame until one yields NULL, `n` at most. Each lowers the count.
  unfoldable pub pop_frame : ℕ → Machine G → Machine G
  unfolding frame_pop
  pop_frame zero m = m
  pop_frame (suc n) m = let (v, r) = frame_pop m in unless_null (v, r) (pop_frame n r)

  unfoldable pub frame_destroy : Machine G → Machine G
  frame_destroy m = pop_frame m.frame_count m
