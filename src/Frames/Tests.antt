-- ===== src/Frames/Tests.antt =====
-- A stack of three entries with a frame on the last two, and the theorems at it.
use ak_lisp.Base.{◌≡◌, refl, none, some, ◌==◌, if◌then◌else◌, [], ◌∷◌, arith}
use ak_lisp.Lists.{init}
use ak_lisp.Lists.Memory.{Heap}
use ak_lisp.Lists.Links.{cons, nil}
use ak_lisp.Frames.{Context, frame_pop, frame_shift, init_frame}
use ak_lisp.Frames.Segment.{IsTop}
use ak_lisp.Frames.Pop.{frame_pop-IsTop}
use ak_lisp.Frames.Start.{init_frame-IsTop}
use ak_lisp.Frames.Shift.{frame_shift-IsTop}

abbrev entries : Heap
entries a =
    if a == 10
    then some (record { le_next = 20; le_prev = 0; le_data = 1 })
    else if a == 20
    then some (record { le_next = 30; le_prev = 10; le_data = 2 })
    else if a == 30
    then some (record { le_next = 0; le_prev = 20; le_data = 3 })
    else none

abbrev two_arguments : Context
two_arguments = record {
  cx_stack = record init { li_head = 10; li_last = 30; li_count = 3 };
  cx_frame = record init { li_head = 20; li_last = 30; li_count = 2 };
  parent_stack = none;
}

two_arguments-IsTop : IsTop entries two_arguments ((10, 1) ∷ []) ((20, 2) ∷ (30, 3) ∷ [])
two_arguments-IsTop = record {
  stack = record {
    head = refl;
    last = refl;
    count = refl;
    small = omega arith;
    chain = cons refl (cons refl (cons refl nil));
    distinct = (refl, (refl, (refl, tt)));
    no_null = refl;
  };
  head = refl;
  ends = refl;
  count = refl;
}

frame_pop-IsTop_example :
    (c' : Context) × (h' : Heap) × (frame_pop two_arguments entries ≡ some ((3, c'), h'))
    × IsTop h' c' ((10, 1) ∷ []) ((20, 2) ∷ [])
frame_pop-IsTop_example = frame_pop-IsTop ((10, 1) ∷ []) ((20, 2) ∷ []) 30 3 two_arguments-IsTop

frame_shift-IsTop_example :
    (c' : Context) × (h' : Heap) × (frame_shift two_arguments entries ≡ some ((2, c'), h'))
    × IsTop h' c' ((10, 1) ∷ []) ((30, 3) ∷ [])
frame_shift-IsTop_example = frame_shift-IsTop ((10, 1) ∷ []) ((30, 3) ∷ []) 20 2 two_arguments-IsTop

init_frame-IsTop_example :
    (c' : Context) × (init_frame (some 2) two_arguments entries ≡ some (c', entries))
    × IsTop entries c' ((10, 1) ∷ []) ((20, 2) ∷ (30, 3) ∷ [])
init_frame-IsTop_example =
    init_frame-IsTop two_arguments ((10, 1) ∷ []) 20 2 ((30, 3) ∷ []) two_arguments-IsTop.stack
