-- ===== src/Machine/OnFrame.antt =====
-- A frame that is the top of the stack, by its values, and what takes values off it.
use mathlib.Core.List.{append_assoc, append-nil}
use ak_lisp.Base.{
  ℕ, suc, ◌+◌, ◌-◌, true, false, Option, none, some, List, [], ◌∷◌, ◌++◌, ◌≡◌, refl, ap, sym, ◌∙◌,
  arith, length, take, drop, length-append, get_elem?-append_self, ◌==◌, ◌||◌, ltb, if◌then◌else◌,
}
use ak_lisp.Values.{Value}
use ak_lisp.Machine.{
  Machine, entry_in, head_left, frame_start, remove_at, init_frame, frame_shift, frame_pop,
}

-- Where the values `frame` begin above `below`, if there are any.
abbrev pub head_above : List Value → List Value → Option ℕ
head_above below [] = none
head_above below (v ∷ frame) = some (length below)

module _ {G : Type 0} where
  -- The machine `m` with the values `below` on the stack and those of the frame above them.
  abbrev pub on_frame : List Value → List Value → Machine G → Machine G
  on_frame below frame m = record m {
    stack = below ++ frame;
    frame_head = head_above below frame;
    frame_end = length below + length frame;
    frame_count = length frame;
  }

remove_at-append :
    (xs ys : List Value) (y : Value) → remove_at (xs ++ (y ∷ ys)) (length xs) ≡ xs ++ ys
remove_at-append [] ys y = refl
remove_at-append (x ∷ xs) ys y =
    let e : suc (length xs) + 1 ≡ suc (length xs + 1) = omega arith in
    ap (λ k. take (suc (length xs)) (x ∷ (xs ++ (y ∷ ys))) ++ drop k (x ∷ (xs ++ (y ∷ ys)))) e
    ∙ ap (λ r. x ∷ r) (remove_at-append xs ys y)

entry_in-append :
    (below frame : List Value) → entry_in (below ++ frame) (length below) ≡ head_above below frame
entry_in-append below [] =
    let size = length-append below [] in
    let t : ltb (length below) (length (below ++ [])) ≡ false = ground arith in
    ap (λ b. if b then some (length below) else none) t
entry_in-append below (v ∷ frame) =
    let size = length-append below (v ∷ frame) in
    let t : ltb (length below) (length (below ++ (v ∷ frame))) ≡ true = ground arith in
    ap (λ b. if b then some (length below) else none) t

head_left-append :
    (below frame : List Value) (v : Value)
    → head_left (below ++ frame) (head_above below (frame ++ (v ∷ []))) ≡ head_above below frame
head_left-append below [] v = entry_in-append below []
head_left-append below (w ∷ frame) v = entry_in-append below (w ∷ frame)

frame_start-append :
    (below frame : List Value) (v : Value)
    → frame_start (suc (length frame)) (below ++ (v ∷ frame)) ≡ some (length below)
frame_start-append [] frame v =
    let t : (suc (length frame) == 0) ≡ false = ground arith in
    let e : suc (length frame) - suc (length frame) ≡ 0 = omega arith in rw (t, e) refl
frame_start-append (b ∷ below) frame v =
    let t : (suc (length frame) == 0) ≡ false = ground arith in
    let size = length-append below (v ∷ frame) in
    let e : suc (length (below ++ (v ∷ frame))) - suc (length frame) ≡ suc (length below) =
      omega arith in
    rw (t, e) refl

module _ {G : Type 0} where
  pub frame_shift-on_frame :
      (below frame : List Value) (v : Value) (m : Machine G)
      → frame_shift (on_frame below (v ∷ frame) m) ≡ (some v, on_frame below frame m)
  unfolding frame_shift
  frame_shift-on_frame below frame v m =
      let t : (suc (length frame) == 0) ≡ false = ground arith in
      let x = get_elem?-append_self below frame v in
      let y = remove_at-append below frame v in
      let z : (if ltb (length below) (length below + suc (length frame))
            then length below + suc (length frame) - 1
            else length below + suc (length frame))
          ≡ length below + length frame =
        ground arith in
      let w : suc (length frame) - 1 ≡ length frame = omega arith in
      rw (t, x, y, z, w, entry_in-append below frame) refl

  pub frame_shift-empty :
      (below : List Value) (m : Machine G)
      → frame_shift (on_frame below [] m) ≡ (none, on_frame below [] m)
  unfolding frame_shift
  frame_shift-empty below m = refl

  pub frame_pop-empty :
      (below : List Value) (m : Machine G)
      → frame_pop (on_frame below [] m) ≡ (none, on_frame below [] m)
  unfolding frame_pop
  frame_pop-empty below m = refl

  pub frame_pop-on_frame :
      (below frame : List Value) (v : Value) (m : Machine G)
      → frame_pop (on_frame below (frame ++ (v ∷ [])) m) ≡ (some v, on_frame below frame m)
  unfolding frame_pop
  frame_pop-on_frame below frame v m =
      let size = length-append frame (v ∷ []) in
      let size2 = length-append below frame in
      let first = head_left-append below frame v in
      let t : ((length (frame ++ (v ∷ [])) == 0)
            || (length below + length (frame ++ (v ∷ [])) == 0))
          ≡ false =
        ground arith in
      let k : length below + length (frame ++ (v ∷ [])) - 1 ≡ length (below ++ frame) =
        omega arith in
      let s = sym (append_assoc below frame (v ∷ [])) in
      let x = get_elem?-append_self (below ++ frame) [] v in
      let y = remove_at-append (below ++ frame) [] v ∙ append-nil (below ++ frame) in
      let w : length (frame ++ (v ∷ [])) - 1 ≡ length frame = omega arith in
      rw (t, k, s, x, y, w, first, size2) refl

  pub init_frame-on_frame :
      (below frame : List Value) (v : Value) (m : Machine G)
      → init_frame (suc (length frame)) (record m { stack = below ++ (v ∷ frame) })
        ≡ on_frame below (v ∷ frame) m
  init_frame-on_frame below frame v m =
      let end = length-append below (v ∷ frame) in
      let h = frame_start-append below frame v in rw (end, h) refl
