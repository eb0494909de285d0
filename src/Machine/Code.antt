-- ===== src/Machine/Code.antt =====
-- The bytecode of src/aklisp.h and the builders of src/compile.c.
-- An instruction list is a list; the entry that a label points to is a position in it.
pub mod Order
pub mod Blocks
pub mod End
use ak_lisp.Base.{
  ℕ, zero, suc, ◌+◌, ◌-◌, Bool, true, false, Option, none, some, List, [], ◌∷◌, ◌++◌, length, set,
  take, get_elem?, replicate, ◌==◌, if◌then◌else◌,
}
use ak_lisp.Values.{Value}

-- An operand is a value or NULL, a symbol, a label's number in `uf_labels`, or a number.
pub data Instr : Type 0 where
  nop : Instr
  push : Option Value → Instr
  load : ℕ → Instr
  call : ℕ → Option ℕ → ℕ → Instr
  get set_var : ℕ → Instr
  branch : ℕ → ℕ → Instr
  jmp jt jn : ℕ → Instr
  head tail : ℕ → Instr
  ret : Instr

-- `cx_ir` and `uf_labels` of the function under compilation. A label is its `la_branch`.
pub record Code : Type 0 where
  pub ir : List Instr
  pub labels : List (Option ℕ)

abbrev pub empty : Code
empty = record { ir = []; labels = [] }

-- An empty list gets a NOP.
unfoldable pub with_first : List Instr → List Instr
with_first [] = nop ∷ []
with_first (i ∷ is) = i ∷ is

-- `create_or_get_instr`: the last instruction is the one to fill in.
unfoldable pub create_or_get_instr : Code → Code
unfolding with_first
create_or_get_instr c = record c { ir = with_first c.ir }

-- `create_instr`, and the writes to the instruction that it returns: the last one becomes `i`, and a
-- NOP follows it.
unfoldable pub build : Instr → Code → Code
unfolding create_or_get_instr
build i c =
    let d = create_or_get_instr c in record d { ir = set d.ir (length d.ir - 1) i ++ (nop ∷ []) }

abbrev pub build_push : Option Value → Code → Code
build_push v = build (push v)

abbrev pub build_set : ℕ → Code → Code
build_set s = build (set_var s)

abbrev pub build_get : ℕ → Code → Code
build_get s = build (get s)

-- `akl_build_load`: `found` is the position of the symbol among the arguments of the function.
abbrev pub build_load : (found : Option ℕ) → ℕ → Code → Code
build_load none s = build_get s
build_load (some ind) s = build (load ind)

abbrev pub build_call : ℕ → Option ℕ → ℕ → Code → Code
build_call s fn argc = build (call s fn argc)

-- The label points to the last instruction.
unfoldable pub build_label : ℕ → Code → Code
unfolding create_or_get_instr
build_label l c =
    let d = create_or_get_instr c in record d { labels = set d.labels l (some (length d.ir - 1)) }

abbrev pub build_jump : (ℕ → Instr) → ℕ → Code → Code
build_jump jump l = build (jump l)

abbrev pub build_branch : ℕ → ℕ → Code → Code
build_branch lt lf = build (branch lt lf)

abbrev pub build_ret : Code → Code
build_ret = build ret

abbrev pub build_nop : Code → Code
build_nop = build nop

-- `akl_new_labels`: the number of the first of `n` new labels.
unfoldable pub new_labels : ℕ → Code → ℕ × Code
new_labels n c = (length c.labels, record c { labels = c.labels ++ replicate n none })

abbrev pub is_nop : Option Instr → Bool
is_nop none = false
is_nop (some nop) = true
is_nop (some (push v)) = false
is_nop (some (load i)) = false
is_nop (some (call s fn argc)) = false
is_nop (some (get s)) = false
is_nop (some (set_var s)) = false
is_nop (some (branch l r)) = false
is_nop (some (jmp l)) = false
is_nop (some (jt l)) = false
is_nop (some (jn l)) = false
is_nop (some (head i)) = false
is_nop (some (tail i)) = false
is_nop (some ret) = false

-- The end of `akl_compile`: the last instruction is taken off if it is a NOP.
unfoldable pub without_nop : Code → Code
without_nop c =
    let last = length c.ir - 1 in
    if is_nop (get_elem? c.ir last) then record c { ir = take last c.ir } else c
