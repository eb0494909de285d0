-- ===== src/Machine/Exec/Loop.antt =====
-- What the code of the special form `while` does, by what that of its parts does.
use mathlib.Core.Path.{subst}
use ak_lisp.Base.{
  ℕ, ◌+◌, true, false, none, some, ◌≡◌, ap, sym, ◌∙◌, arith, length, get_elem?, get_elem?_lt,
}
use ak_lisp.Machine.{Machine}
use ak_lisp.Machine.Code.{Code, jmp, jn, build, build_label, new_labels}
use ak_lisp.Machine.Code.Order.{
  pos, Holds, Extends-Holds, build-Extends, pos-build_label, build_label-Extends,
}
use ak_lisp.Machine.Code.Blocks.{
  Builder, Good, Keeps-Unbuilt, new_labels-first, while_code, while_code-before,
}
use ak_lisp.Machine.Exec.{Env}
use ak_lisp.Machine.Exec.Reaches.{Reaches, Reaches-trans}
use ak_lisp.Machine.Exec.Jumps.{
  Effect, Popped, instr-Holds, label-Holds, jmp-Reaches, jn-Effect_true, jn-Effect_nil,
}

module _ {G : Type 0} (env : Env G) (fa fb : Builder) where
  -- Any number of rounds: the condition holds and the body runs, until the condition is nil.
  pub data Rounds : Machine G → Machine G → Type 0 where
    done :
        {m : Machine G} (m1 : Machine G) {r : Machine G}
        → Effect env fa m m1
        → m1.ai_interrupted ≡ false
        → Popped m1 true r
        → Rounds m r
    again :
        {m : Machine G} (m1 m2 m3 : Machine G) {r : Machine G}
        → Effect env fa m m1
        → m1.ai_interrupted ≡ false
        → Popped m1 false m2
        → Effect env fb m2 m3
        → m3.ai_interrupted ≡ false
        → Rounds m3 r
        → Rounds m r

module _ {G : Type 0} (env : Env G) (fa fb : Builder) (ga : Good fa) (gb : Good fb) where
  -- From the label of the condition, in code that holds the loop.
  Rounds-Reaches :
      (l : ℕ) (d code : Code) (q : ℕ) (m r : Machine G)
      → let d3 = fb (build (jn (l + 1)) (fa d)) in
        Holds (build (jmp l) d3) code
        → get_elem? code.labels l ≡ some (some (pos d))
        → get_elem? code.labels (l + 1) ≡ some (some q)
        → Rounds env fa fb m r
        → Reaches env code (pos d) m q r
  Rounds-Reaches l d code q _ _ x back out (done {m} m1 {r} ha calm1 popped) =
      let d2 = build (jn (l + 1)) (fa d) in
      let d3 = fb d2 in
      let x3 = Extends-Holds d3 (build (jmp l) d3) code (build-Extends (jmp l) d3) x in
      jn-Effect_nil env fa (l + 1) d code q m m1 r (Extends-Holds d2 d3 code (gb d2).0 x3) out ha
        calm1 popped
  Rounds-Reaches l d code q _ _ x back out (again {m} m1 m2 m3 {r} ha calm1 popped hb calm3 more) =
      let d3 = fb (build (jn (l + 1)) (fa d)) in
      let x3 = Extends-Holds d3 (build (jmp l) d3) code (build-Extends (jmp l) d3) x in
      Reaches-trans env code (pos d) (pos d3) q m m3 r
        (jn-Effect_true env fa fb gb (l + 1) d code m m1 m2 m3 x3 ha calm1 popped hb)
        (Reaches-trans env code (pos d3) (pos d) q m3 m3 r
          (jmp-Reaches env code l (pos d3) (pos d) m3 (instr-Holds (jmp l) d3 code x) back calm3)
          (Rounds-Reaches l d code q m3 r x back out more))

  pub while_code-Effect :
      (m r : Machine G) → Rounds env fa fb m r → Effect env (while_code fa fb) m r
  unfolding while_code new_labels
  while_code-Effect m r rounds c code x =
      let l = length c.labels in
      let c0 = (new_labels 2 c).1 in
      let d = build_label l c0 in
      let d4 = build (jmp l) (fb (build (jn (l + 1)) (fa d))) in
      let (k, k2, u) = while_code-before fa fb ga gb c in
      let u4 = Keeps-Unbuilt d d4 (l + 1) k2 u in
      let x4 =
        Extends-Holds d4 (build_label (l + 1) d4) code (build_label-Extends (l + 1) d4 u4) x in
      let xd = Extends-Holds d d4 code k2.0 x4 in
      let first = get_elem?_lt c0.labels l none (new_labels-first 2 c (omega arith)) in
      let back =
        label-Holds l c0 code first xd ∙ ap (λ p. some (some p)) (sym (pos-build_label l c0)) in
      let out = label-Holds (l + 1) d4 code (get_elem?_lt d4.labels (l + 1) none u4) x in
      subst (λ p. Reaches env code p m (pos (build_label (l + 1) d4)) r) (pos-build_label l c0)
        (subst (λ p. Reaches env code (pos d) m p r) (sym (pos-build_label (l + 1) d4))
          (Rounds-Reaches l d code (pos d4) m r x4 back out rounds))
