-- ===== src/Frames/Segment.antt =====
-- When a frame is the top of the stack, and the removal of a stack entry.
use ak_lisp.Base.{ℕ, ◌≡◌, [], ◌∷◌, ◌++◌, length}
use ak_lisp.Lists.Memory.{Heap}
use ak_lisp.Lists.Links.{Cells, first, last_of}
use ak_lisp.Lists.Shape.{IsList}
use ak_lisp.Frames.{Context}

-- The last entry of a frame that has one; that of an empty frame is never read.
abbrev pub EndsAt : Cells → ℕ → Type 0
EndsAt [] l = Unit {0}
EndsAt ((p, _) ∷ xs) l = l ≡ last_of p xs

-- The stack is `below` and then the cells of the frame.
pub record IsTop (h : Heap) (c : Context) (below cells : Cells) : Type 0 where
  pub stack : IsList h c.cx_stack (below ++ cells)
  pub head : c.cx_frame.li_head ≡ first cells 0
  pub ends : EndsAt cells c.cx_frame.li_last
  pub count : c.cx_frame.li_count ≡ length cells
