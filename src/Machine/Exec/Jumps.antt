-- ===== src/Machine/Exec/Jumps.antt =====
-- What the jumps of the code of a condition do.
use mathlib.Core.Path.{subst}
use ak_lisp.Base.{ℕ, suc, ◌<◌, Bool, true, false, some, ◌≡◌, ap, ◌∙◌, arith, length, get_elem?}
use ak_lisp.Values.{is_nil_or_null}
use ak_lisp.Machine.{Machine, stack_pop, pops_frame}
use ak_lisp.Machine.Code.{Instr, Code, jmp, jn, build, build_label}
use ak_lisp.Machine.Code.Order.{
  pos, Holds, Extends-Holds, build-Extends, build-instr, pos-build, build_label-label,
}
use ak_lisp.Machine.Code.Blocks.{Builder, Good}
use ak_lisp.Machine.Exec.{Env, goto, jump_at, step}
use ak_lisp.Machine.Exec.Reaches.{Reaches, Reaches-trans, Reaches-Steps}

-- Code that holds a built instruction, and one that holds a built label.
pub instr-Holds :
    (i : Instr) (c code : Code) → Holds (build i c) code → get_elem? code.ir (pos c) ≡ some i
instr-Holds i c code h = h.0 (pos c) (omega (arith, pos-build i c)) ∙ build-instr i c

pub label-Holds :
    (l : ℕ) (c code : Code)
    → l < length c.labels
    → Holds (build_label l c) code
    → get_elem? code.labels l ≡ some (some (pos c))
label-Holds l c code lt h = h.1 l (pos c) (build_label-label l c lt)

module _ {G : Type 0} where
  -- The condition is popped, and was no value of the frame.
  abbrev pub Popped : Machine G → Bool → Machine G → Type 0
  Popped m b r =
      (pops_frame m ≡ false) × (is_nil_or_null (stack_pop m).0 ≡ b) × ((stack_pop m).1 ≡ r)

module _ {G : Type 0} (env : Env G) where
  -- What a builder adds takes the machine from `m` to `r`, in any code that holds it.
  abbrev pub Effect : Builder → Machine G → Machine G → Type 0
  Effect f m r = (c code : Code) → Holds (f c) code → Reaches env code (pos c) m (pos (f c)) r

  pub jmp-Reaches :
      (code : Code) (l p q : ℕ) (m : Machine G)
      → get_elem? code.ir p ≡ some (jmp l)
      → get_elem? code.labels l ≡ some (some q)
      → m.ai_interrupted ≡ false
      → Reaches env code p m q m
  unfolding step
  jmp-Reaches code l p q m at to calm =
      Reaches-Steps env code (jmp l) p q m m at calm (0, λ n. ap (λ o. jump_at env o m) to)

  pub jn-Reaches_nil :
      (code : Code) (l p q : ℕ) (m r : Machine G)
      → get_elem? code.ir p ≡ some (jn l)
      → get_elem? code.labels l ≡ some (some q)
      → m.ai_interrupted ≡ false
      → Popped m true r
      → Reaches env code p m q r
  unfolding step
  jn-Reaches_nil code l p q m r at to calm (own, nil, e) =
      Reaches-Steps env code (jn l) p q m r at calm
        (0, λ n. rw (own, nil, e) (ap (λ o. jump_at env o r) to))

  pub jn-Reaches_true :
      (code : Code) (l p : ℕ) (m r : Machine G)
      → get_elem? code.ir p ≡ some (jn l)
      → m.ai_interrupted ≡ false
      → Popped m false r
      → Reaches env code p m (suc p) r
  unfolding step
  jn-Reaches_true code l p m r at calm (own, nil, e) =
      Reaches-Steps env code (jn l) p (suc p) m r at calm
        (0, λ n. rw (own, nil, e) (ap (λ k. some (goto r k)) (omega arith)))

  -- The condition and, when it holds, the part behind it.
  pub jn-Effect_true :
      (fa fb : Builder) (gb : Good fb) (x : ℕ) (c code : Code) (m m1 m2 r : Machine G)
      → Holds (fb (build (jn x) (fa c))) code
      → Effect fa m m1
      → m1.ai_interrupted ≡ false
      → Popped m1 false m2
      → Effect fb m2 r
      → Reaches env code (pos c) m (pos (fb (build (jn x) (fa c)))) r
  jn-Effect_true fa fb gb x c code m m1 m2 r h ha calm popped hb =
      let c1 = fa c in
      let c2 = build (jn x) c1 in
      let h2 = Extends-Holds c2 (fb c2) code (gb c2).0 h in
      let h1 = Extends-Holds c1 c2 code (build-Extends (jn x) c1) h2 in
      let jump =
        jn-Reaches_true code x (pos c1) m1 m2 (instr-Holds (jn x) c1 code h2) calm popped in
      let behind =
        subst (λ p. Reaches env code p m2 (pos (fb c2)) r) (pos-build (jn x) c1) (hb c2 code h) in
      Reaches-trans env code (pos c) (pos c1) (pos (fb c2)) m m1 r (ha c code h1)
        (Reaches-trans env code (pos c1) (suc (pos c1)) (pos (fb c2)) m1 m2 r jump behind)

  -- The condition and, when it is nil, the jump.
  pub jn-Effect_nil :
      (fa : Builder) (x : ℕ) (c code : Code) (q : ℕ) (m m1 r : Machine G)
      → Holds (build (jn x) (fa c)) code
      → get_elem? code.labels x ≡ some (some q)
      → Effect fa m m1
      → m1.ai_interrupted ≡ false
      → Popped m1 true r
      → Reaches env code (pos c) m q r
  jn-Effect_nil fa x c code q m m1 r h to ha calm popped =
      let c1 = fa c in
      let h1 = Extends-Holds c1 (build (jn x) c1) code (build-Extends (jn x) c1) h in
      Reaches-trans env code (pos c) (pos c1) q m m1 r (ha c code h1)
        (jn-Reaches_nil code x (pos c1) q m1 r (instr-Holds (jn x) c1 code h) to calm popped)
