-- ===== src/Machine/Code/Blocks.antt =====
-- The code that the special forms `if`, `when` and `while` of src/lib_spec.c put together around that
-- of their parts, each given by what it does to the code so far.
use ak_lisp.Base.{
  ℕ, ◌+◌, ◌<◌, ◌≤◌, none, some, ◌≡◌, ◌≢◌, ap, ◌∙◌, arith, length, get_elem?, get_elem?-set_ne,
  get_elem?_lt,
}
use ak_lisp.Machine.Code.{Instr, Code, jmp, jn, build, build_label, new_labels}
use ak_lisp.Machine.Code.Order.{
  Extends, SameLabels, Extends-trans, SameLabels-trans, build-Extends, build-SameLabels,
  build_label-Extends, build_label-SameLabels, new_labels-Extends, new_labels-SameLabels,
  new_labels-unbuilt,
}

abbrev pub Builder : Type 0
Builder = Code → Code

-- The three forms.
unfoldable pub if_code : Builder → Builder → Builder → Builder
if_code cond body other c =
    let l = length c.labels in
    let c1 = cond (new_labels 2 c).1 in
    let c4 = build (jmp l) (body (build (jn (l + 1)) c1)) in
    build_label l (other (build_label (l + 1) c4))

unfoldable pub when_code : Builder → Builder → Builder
when_code cond body c =
    let l = length c.labels in build_label l (body (build (jn l) (cond (new_labels 1 c).1)))

unfoldable pub while_code : Builder → Builder → Builder
while_code cond body c =
    let l = length c.labels in
    let c1 = cond (build_label l (new_labels 2 c).1) in
    build_label (l + 1) (build (jmp l) (body (build (jn (l + 1)) c1)))

abbrev pub Keeps : Code → Code → Type 0
Keeps c d = Extends c d × SameLabels c d

-- A builder that extends the code and leaves the labels that it finds.
abbrev pub Good : Builder → Type 0
Good f = (c : Code) → Keeps c (f c)

abbrev pub Unbuilt : Code → ℕ → Type 0
Unbuilt c l = get_elem? c.labels l ≡ some none

pub Keeps-trans : (c d e : Code) → Keeps c d → Keeps d e → Keeps c e
Keeps-trans c d e h k = (Extends-trans c d e h.0 k.0, SameLabels-trans c d e h.1 k.1)

pub build-Keeps : (i : Instr) (c : Code) → Keeps c (build i c)
build-Keeps i c = (build-Extends i c, build-SameLabels i c)

pub new_labels-Keeps : (n : ℕ) (c : Code) → Keeps c (new_labels n c).1
new_labels-Keeps n c = (new_labels-Extends n c, new_labels-SameLabels n c)

pub build_label-Keeps :
    (l : ℕ) (c d : Code) → Keeps c d → length c.labels ≤ l → Unbuilt d l → Keeps c (build_label l d)
build_label-Keeps l c d h le u = (
  Extends-trans c d (build_label l d) h.0 (build_label-Extends l d u),
  build_label-SameLabels l c d h.1 le,
)

pub Keeps-Unbuilt : (c d : Code) (l : ℕ) → Keeps c d → Unbuilt c l → Unbuilt d l
Keeps-Unbuilt c d l h u = h.1.1 l (get_elem?_lt c.labels l none u) ∙ u

pub build_label-Unbuilt : (k l : ℕ) (c : Code) → k ≢ l → Unbuilt c l → Unbuilt (build_label k c) l
unfolding build_label
build_label-Unbuilt k l c ne u = get_elem?-set_ne c.labels k l (some _) ne ∙ u

pub new_labels-first : (n : ℕ) (c : Code) → 0 < n → Unbuilt (new_labels n c).1 (length c.labels)
new_labels-first n c h =
    ap (λ k. get_elem? (new_labels n c).1.labels k) (omega arith) ∙ new_labels-unbuilt n c 0 h

-- The code as it stands at each point of `if`, `when` and `while`, seen from its beginning.
module _ (fa fb : Builder) (ga : Good fa) (gb : Good fb) where
  -- A part, a jump, a part.
  pub jump-Keeps : (i : Instr) (c : Code) → Keeps c (fb (build i (fa c)))
  jump-Keeps i c = Keeps-trans c (fa c) (fb (build i (fa c))) (ga c) (
      Keeps-trans (fa c) (build i (fa c)) (fb (build i (fa c))) (build-Keeps i (fa c))
        (gb (build i (fa c))))

  pub jump2-Keeps : (i j : Instr) (c : Code) → Keeps c (build j (fb (build i (fa c))))
  jump2-Keeps i j c =
      let d = fb (build i (fa c)) in Keeps-trans c d (build j d) (jump-Keeps i c) (build-Keeps j d)

  pub when_code-Good : Good (when_code fa fb)
  unfolding when_code
  when_code-Good c =
      let l = length c.labels in
      let c0 = (new_labels 1 c).1 in
      let d = fb (build (jn l) (fa c0)) in
      let k = jump-Keeps (jn l) c0 in
      build_label-Keeps l c d (Keeps-trans c c0 d (new_labels-Keeps 1 c) k) (omega arith)
        (Keeps-Unbuilt c0 d l k (new_labels-first 1 c (omega arith)))

  -- Up to the jump back to the label of the condition.
  pub while_code-before :
      (c : Code)
      → let l = length c.labels in
        let d = build_label l (new_labels 2 c).1 in
        Keeps c d × Keeps d (build (jmp l) (fb (build (jn (l + 1)) (fa d)))) × Unbuilt d (l + 1)
  while_code-before c =
      let l = length c.labels in
      let c0 = (new_labels 2 c).1 in
      (
        build_label-Keeps l c c0 (new_labels-Keeps 2 c) (omega arith)
            (new_labels-first 2 c (omega arith)),
        jump2-Keeps (jn (l + 1)) (jmp l) (build_label l c0),
        build_label-Unbuilt l (l + 1) c0 (omega arith) (new_labels-unbuilt 2 c 1 (omega arith)),
      )

  pub while_code-Good : Good (while_code fa fb)
  unfolding while_code
  while_code-Good c =
      let l = length c.labels in
      let d = build_label l (new_labels 2 c).1 in
      let e = build (jmp l) (fb (build (jn (l + 1)) (fa d))) in
      let (k, k2, u) = while_code-before c in
      build_label-Keeps (l + 1) c e (Keeps-trans c d e k k2) (omega arith)
        (Keeps-Unbuilt d e (l + 1) k2 u)

  -- Up to the other branch.
  pub if_code-before :
      (c : Code)
      → let l = length c.labels in
        let d = build (jmp l) (fb (build (jn (l + 1)) (fa (new_labels 2 c).1))) in
        Keeps c d × Unbuilt d (l + 1) × Unbuilt d l
  if_code-before c =
      let l = length c.labels in
      let c0 = (new_labels 2 c).1 in
      let d = build (jmp l) (fb (build (jn (l + 1)) (fa c0))) in
      let k = jump2-Keeps (jn (l + 1)) (jmp l) c0 in
      (
        Keeps-trans c c0 d (new_labels-Keeps 2 c) k,
        Keeps-Unbuilt c0 d (l + 1) k (new_labels-unbuilt 2 c 1 (omega arith)),
        Keeps-Unbuilt c0 d l k (new_labels-first 2 c (omega arith)),
      )

  module _ (fd : Builder) (gd : Good fd) where
    -- The other branch, up to the label behind it.
    pub if_code-behind :
        (c : Code)
        → let l = length c.labels in
          let d = build (jmp l) (fb (build (jn (l + 1)) (fa (new_labels 2 c).1))) in
          let e = build_label (l + 1) d in Keeps c e × Unbuilt (fd e) l
    if_code-behind c =
        let l = length c.labels in
        let d = build (jmp l) (fb (build (jn (l + 1)) (fa (new_labels 2 c).1))) in
        let e = build_label (l + 1) d in
        let (k, u1, u0) = if_code-before c in
        (
          build_label-Keeps (l + 1) c d k (omega arith) u1,
          Keeps-Unbuilt e (fd e) l (gd e) (build_label-Unbuilt (l + 1) l d (omega arith) u0),
        )

    pub if_code-Good : Good (if_code fa fb fd)
    unfolding if_code
    if_code-Good c =
        let l = length c.labels in
        let d = build (jmp l) (fb (build (jn (l + 1)) (fa (new_labels 2 c).1))) in
        let e = build_label (l + 1) d in
        let (k, u) = if_code-behind c in
        build_label-Keeps l c (fd e) (Keeps-trans c e (fd e) k (gd e)) (omega arith) u
