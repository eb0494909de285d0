-- ===== src/Machine/Exec/Blocks.antt =====
-- What the code of the special forms `if`, `when` and `while` does, by what that of its parts does.
use mathlib.Core.Path.{subst}
use ak_lisp.Base.{◌+◌, true, false, none, ◌≡◌, sym, arith, length, get_elem?_lt}
use ak_lisp.Machine.{Machine}
use ak_lisp.Machine.Code.{jmp, jn, build, build_label, new_labels}
use ak_lisp.Machine.Code.Order.{
  pos, Extends-Holds, build-Extends, pos-build_label, build_label-Extends,
}
use ak_lisp.Machine.Code.Blocks.{
  Builder, Good, Keeps-Unbuilt, new_labels-first, if_code, when_code, jump-Keeps, if_code-before,
  if_code-behind,
}
use ak_lisp.Machine.Exec.{Env}
use ak_lisp.Machine.Exec.Reaches.{Reaches, Reaches-trans}
use ak_lisp.Machine.Exec.Jumps.{
  Effect, Popped, instr-Holds, label-Holds, jmp-Reaches, jn-Effect_true, jn-Effect_nil,
}

module _ {G : Type 0} (env : Env G) where
  module _ (fa fb : Builder) (ga : Good fa) (gb : Good fb) where
    pub when_code-Effect_true :
        (m m1 m2 r : Machine G)
        → Effect env fa m m1
        → m1.ai_interrupted ≡ false
        → Popped m1 false m2
        → Effect env fb m2 r
        → Effect env (when_code fa fb) m r
    unfolding when_code new_labels
    when_code-Effect_true m m1 m2 r ha calm1 popped hb c code x =
        let l = length c.labels in
        let c0 = (new_labels 1 c).1 in
        let d = fb (build (jn l) (fa c0)) in
        let k = jump-Keeps fa fb ga gb (jn l) c0 in
        let u = Keeps-Unbuilt c0 d l k (new_labels-first 1 c (omega arith)) in
        let xd = Extends-Holds d (build_label l d) code (build_label-Extends l d u) x in
        subst (λ p. Reaches env code (pos c0) m p r) (sym (pos-build_label l d))
          (jn-Effect_true env fa fb gb l c0 code m m1 m2 r xd ha calm1 popped hb)

    pub when_code-Effect_nil :
        (m m1 r : Machine G)
        → Effect env fa m m1
        → m1.ai_interrupted ≡ false
        → Popped m1 true r
        → Effect env (when_code fa fb) m r
    unfolding when_code new_labels
    when_code-Effect_nil m m1 r ha calm1 popped c code x =
        let l = length c.labels in
        let c0 = (new_labels 1 c).1 in
        let c2 = build (jn l) (fa c0) in
        let d = fb c2 in
        let k = jump-Keeps fa fb ga gb (jn l) c0 in
        let first = new_labels-first 1 c (omega arith) in
        let u = Keeps-Unbuilt c0 d l k first in
        let xd = Extends-Holds d (build_label l d) code (build_label-Extends l d u) x in
        let to = label-Holds l d code (get_elem?_lt d.labels l none u) x in
        subst (λ p. Reaches env code (pos c0) m p r) (sym (pos-build_label l d))
          (jn-Effect_nil env fa l c0 code (pos d) m m1 r (Extends-Holds c2 d code (gb c2).0 xd) to
            ha calm1 popped)

  module _ (fa fb fd : Builder) (ga : Good fa) (gb : Good fb) (gd : Good fd) where
    pub if_code-Effect_true :
        (m m1 m2 r : Machine G)
        → Effect env fa m m1
        → m1.ai_interrupted ≡ false
        → Popped m1 false m2
        → Effect env fb m2 r
        → r.ai_interrupted ≡ false
        → Effect env (if_code fa fb fd) m r
    unfolding if_code new_labels
    if_code-Effect_true m m1 m2 r ha calm1 popped hb calm c code x =
        let l = length c.labels in
        let c0 = (new_labels 2 c).1 in
        let c3 = fb (build (jn (l + 1)) (fa c0)) in
        let c4 = build (jmp l) c3 in
        let c5 = build_label (l + 1) c4 in
        let c6 = fd c5 in
        let (k4, u4, v4) = if_code-before fa fb ga gb c in
        let (k5, u6) = if_code-behind fa fb ga gb fd gd c in
        let x6 = Extends-Holds c6 (build_label l c6) code (build_label-Extends l c6 u6) x in
        let x5 = Extends-Holds c5 c6 code (gd c5).0 x6 in
        let x4 = Extends-Holds c4 c5 code (build_label-Extends (l + 1) c4 u4) x5 in
        let x3 = Extends-Holds c3 c4 code (build-Extends (jmp l) c3) x4 in
        let to = label-Holds l c6 code (get_elem?_lt c6.labels l none u6) x in
        subst (λ p. Reaches env code (pos c0) m p r) (sym (pos-build_label l c6))
          (Reaches-trans env code (pos c0) (pos c3) (pos c6) m r r
            (jn-Effect_true env fa fb gb (l + 1) c0 code m m1 m2 r x3 ha calm1 popped hb)
            (jmp-Reaches env code l (pos c3) (pos c6) r (instr-Holds (jmp l) c3 code x4) to calm))

    pub if_code-Effect_nil :
        (m m1 m2 r : Machine G)
        → Effect env fa m m1
        → m1.ai_interrupted ≡ false
        → Popped m1 true m2
        → Effect env fd m2 r
        → Effect env (if_code fa fb fd) m r
    unfolding if_code new_labels
    if_code-Effect_nil m m1 m2 r ha calm1 popped hd c code x =
        let l = length c.labels in
        let c0 = (new_labels 2 c).1 in
        let c2 = build (jn (l + 1)) (fa c0) in
        let c3 = fb c2 in
        let c4 = build (jmp l) c3 in
        let c5 = build_label (l + 1) c4 in
        let c6 = fd c5 in
        let (k4, u4, v4) = if_code-before fa fb ga gb c in
        let (k5, u6) = if_code-behind fa fb ga gb fd gd c in
        let x6 = Extends-Holds c6 (build_label l c6) code (build_label-Extends l c6 u6) x in
        let x5 = Extends-Holds c5 c6 code (gd c5).0 x6 in
        let x4 = Extends-Holds c4 c5 code (build_label-Extends (l + 1) c4 u4) x5 in
        let x3 = Extends-Holds c3 c4 code (build-Extends (jmp l) c3) x4 in
        let to = label-Holds (l + 1) c4 code (get_elem?_lt c4.labels (l + 1) none u4) x5 in
        let behind =
          subst (λ p. Reaches env code p m2 (pos c6) r) (pos-build_label (l + 1) c4)
            (hd c5 code x6) in
        subst (λ p. Reaches env code (pos c0) m p r) (sym (pos-build_label l c6))
          (Reaches-trans env code (pos c0) (pos c4) (pos c6) m m2 r
            (jn-Effect_nil env fa (l + 1) c0 code (pos c4) m m1 m2
              (Extends-Holds c2 c3 code (gb c2).0 x3) to ha calm1 popped)
            behind)
