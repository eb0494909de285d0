-- ===== src/Compile/Expr/Effect.antt =====
-- The code of an expression does what the expression means.
use mathlib.Core.Path.{subst}
use mathlib.Core.Option
use ak_lisp.Base.{if◌then◌else◌, ℕ, suc, ◌+◌, Option, none, some, ◌≡◌, refl, ap, sym, ◌∙◌, arith}
use ak_lisp.Values.{Value}
use ak_lisp.Machine.{Machine, stack_push, stack_top, frame_at}
use ak_lisp.Machine.Code.{
  Instr, Code, push, load, get, call, set_var, build, build_push, build_load, build_call, build_set,
}
use ak_lisp.Machine.Code.Order.{pos, pos-build, Extends-refl, Extends-Holds}
use ak_lisp.Machine.Code.Blocks.{
  Builder, Good, Keeps, Keeps-trans, build-Keeps, if_code-Good, when_code-Good, while_code-Good,
}
use ak_lisp.Machine.Exec.{
  Env, goto, step, called, bound_function, call_function_bound, run, push_or, looked_up, assigned,
}
use ak_lisp.Machine.Exec.Reaches.{Reaches, Steps, Reaches-Steps, Reaches-refl, Reaches-trans}
use ak_lisp.Machine.Exec.Jumps.{Effect, instr-Holds}
use ak_lisp.Machine.Exec.Blocks.{
  if_code-Effect_true, if_code-Effect_nil, when_code-Effect_true, when_code-Effect_nil,
}
use ak_lisp.Machine.Exec.Loop.{Rounds, done, again, while_code-Effect}
use ak_lisp.Compile.Expr.{
  Expr, const, name, apply, if_of, when_of, while_of, set_of, Exprs, no_exprs, then_expr, count,
  code_of, code_of_all, name_pushed, Called, unbound, bound, Calm, Runs, runs_const, runs_name,
  runs_apply, runs_if_true, runs_if_nil, runs_when_true, runs_when_nil, runs_while, runs_set,
  RunsRounds, runs_done, runs_again, RunsAll, runs_none, runs_then,
}

mutual
  unfolding code_of

  pub code_of-Good : (e : Expr) → Good (λ c. code_of e c)
  code_of-Good (const v) c = build-Keeps (push (some v)) c
  code_of-Good (name none s) c = build-Keeps (get s) c
  code_of-Good (name (some i) s) c = build-Keeps (load i) c
  code_of-Good (apply s fn es) c =
      let d = code_of_all es c in
      Keeps-trans c d (build (call s fn (count es)) d) (code_of_all-Good es c)
        (build-Keeps (call s fn (count es)) d)
  code_of-Good (if_of a b d) c =
      if_code-Good (λ x. code_of a x) (λ x. code_of b x) (code_of-Good a) (code_of-Good b)
        (λ x. code_of d x) (code_of-Good d) c
  code_of-Good (when_of a b) c =
      when_code-Good (λ x. code_of a x) (λ x. code_of b x) (code_of-Good a) (code_of-Good b) c
  code_of-Good (while_of a b) c =
      while_code-Good (λ x. code_of a x) (λ x. code_of b x) (code_of-Good a) (code_of-Good b) c
  code_of-Good (set_of s e) c =
      let d = code_of e c in
      Keeps-trans c d (build (set_var s) d) (code_of-Good e c) (build-Keeps (set_var s) d)

  code_of_all-Good : (es : Exprs) → Good (λ c. code_of_all es c)
  code_of_all-Good no_exprs c = (Extends-refl c, (omega arith, λ l h. refl))
  code_of_all-Good (then_expr e es) c =
      Keeps-trans c (code_of e c) (code_of_all es (code_of e c)) (code_of-Good e c)
        (code_of_all-Good es (code_of e c))

-- The code built for an expression behind any code so far leaves the instructions before the one to
-- fill in and the labels that are there, built or not, as they are.
pub code_of-Keeps : (e : Expr) (c : Code) → Keeps c (code_of e c)
code_of-Keeps e c = code_of-Good e c

module _ {G : Type 0} (env : Env G) where
  -- One built instruction that goes on to the next.
  build-Effect :
      (i : Instr) (m r : Machine G)
      → Calm env m
      → ((code : Code) (p : ℕ) → Steps env code i p m (suc p) r)
      → Effect env (build i) m r
  build-Effect i m r calm h c code x =
      subst (λ p. Reaches env code (pos c) m p r) (sym (pos-build i c))
        (Reaches-Steps env code i (pos c) (suc (pos c)) m r (instr-Holds i c code x) calm
          (h code (pos c)))

  -- Two parts in a row.
  after-Effect :
      (f g : Builder) (gg : Good g) (m m1 r : Machine G)
      → Effect env f m m1
      → Effect env g m1 r
      → Effect env (λ c. g (f c)) m r
  after-Effect f g gg m m1 r hf hg c code x =
      Reaches-trans env code (pos c) (pos (f c)) (pos (g (f c))) m m1 r
        (hf c code (Extends-Holds (f c) (g (f c)) code (gg (f c)).0 x)) (hg (f c) code x)

  goto_suc : (r : Machine G) (p : ℕ) → some (goto r (p + 1)) ≡ some (goto r (suc p))
  goto_suc r p = ap (λ k. some (goto r k)) (omega arith)

  push-Effect :
      (v : Value) (m : Machine G) → Calm env m → Effect env (build_push (some v)) m (stack_push v m)
  unfolding step
  push-Effect v m calm =
      build-Effect (push (some v)) m (stack_push v m) calm
        (λ code p. (0, λ n. goto_suc (stack_push v m) p))

  load-Effect :
      (found : Option ℕ) (s : ℕ) (m : Machine G)
      → Calm env m
      → Effect env (build_load found s) m (name_pushed env found s m)
  unfolding step
  load-Effect none s m calm =
      build-Effect (get s) m (looked_up env s m) calm
        (λ code p. (0, λ n. goto_suc (looked_up env s m) p))
  load-Effect (some i) s m calm =
      let r = push_or env (frame_at m i) m m in
      build-Effect (load i) m r calm (λ code p. (0, λ n. goto_suc r p))

  set-Effect :
      (s : ℕ) (m : Machine G)
      → Calm env m
      → Effect env (build_set s) m (assigned env s (stack_top m) m)
  unfolding step
  set-Effect s m calm =
      let r = assigned env s (stack_top m) m in
      build-Effect (set_var s) m r calm (λ code p. (0, λ n. goto_suc r p))

  call-Steps :
      (s argc : ℕ) (fn : Option ℕ) (code : Code) (p : ℕ) (m r : Machine G)
      (o : Option ℕ × Machine G)
      → bound_function env s fn m ≡ o
      → Called env s argc o r
      → Steps env code (call s fn argc) p m (suc p) r
  unfolding step
  call-Steps s argc fn code p m r _ e (unbound m2) =
      (0, λ n. ap (called env (λ t x. run env (0 + n) t x) s argc p) e ∙ goto_suc m2 p)
  call-Steps s argc fn code p m r _ e (bound f j m2 r2 own h) = (
    j,
    λ n.
        ap (called env (λ t x. run env (j + n) t x) s argc p) e
        ∙ ap
            (λ b.
              if b
              then none
              else Option.map (λ x. goto x (p + 1))
                  (call_function_bound env (λ t x. run env (j + n) t x) (some s) f argc m2))
            own
        ∙ ap (λ o. Option.map (λ x. goto x (p + 1)) o) (h n)
        ∙ goto_suc r2 p,
  )

  mutual
    unfolding code_of

    pub code_of-Effect :
        (e : Expr) (m r : Machine G) → Runs env e m r → Effect env (λ c. code_of e c) m r
    code_of-Effect _ _ _ (runs_const {v} {m} calm) = push-Effect v m calm
    code_of-Effect _ _ _ (runs_name {found} {s} {m} calm) = load-Effect found s m calm
    code_of-Effect _ _ _ (runs_apply {s} {fn} {es} {m} m1 {r} h calm h2) =
        after-Effect (λ c. code_of_all es c) (build_call s fn (count es))
          (λ c. build-Keeps (call s fn (count es)) c) m m1 r (code_of_all-Effect es m m1 h)
          (build-Effect (call s fn (count es)) m1 r calm
            (λ code p. call-Steps s (count es) fn code p m1 r (bound_function env s fn m1) refl h2))
    code_of-Effect _ _ _ (runs_if_true {a} {b} {d} {m} m1 m2 {r} ha calm1 popped hb calm) =
        if_code-Effect_true env (λ x. code_of a x) (λ x. code_of b x) (λ x. code_of d x)
          (code_of-Good a) (code_of-Good b) (code_of-Good d) m m1 m2 r (code_of-Effect a m m1 ha)
          calm1 popped (code_of-Effect b m2 r hb) calm
    code_of-Effect _ _ _ (runs_if_nil {a} {b} {d} {m} m1 m2 {r} ha calm1 popped hd) =
        if_code-Effect_nil env (λ x. code_of a x) (λ x. code_of b x) (λ x. code_of d x)
          (code_of-Good a) (code_of-Good b) (code_of-Good d) m m1 m2 r (code_of-Effect a m m1 ha)
          calm1 popped (code_of-Effect d m2 r hd)
    code_of-Effect _ _ _ (runs_when_true {a} {b} {m} m1 m2 {r} ha calm1 popped hb) =
        when_code-Effect_true env (λ x. code_of a x) (λ x. code_of b x) (code_of-Good a)
          (code_of-Good b) m m1 m2 r (code_of-Effect a m m1 ha) calm1 popped
          (code_of-Effect b m2 r hb)
    code_of-Effect _ _ _ (runs_when_nil {a} {b} {m} m1 {r} ha calm1 popped) =
        when_code-Effect_nil env (λ x. code_of a x) (λ x. code_of b x) (code_of-Good a)
          (code_of-Good b) m m1 r (code_of-Effect a m m1 ha) calm1 popped
    code_of-Effect _ _ _ (runs_while {a} {b} {m} {r} h) =
        while_code-Effect env (λ x. code_of a x) (λ x. code_of b x) (code_of-Good a)
          (code_of-Good b) m r (code_of-Rounds a b m r h)
    code_of-Effect _ _ _ (runs_set {s} {e} {m} m1 h calm) =
        after-Effect (λ c. code_of e c) (build_set s) (λ c. build-Keeps (set_var s) c) m m1
          (assigned env s (stack_top m1) m1) (code_of-Effect e m m1 h) (set-Effect s m1 calm)

    code_of-Rounds :
        (a b : Expr) (m r : Machine G)
        → RunsRounds env a b m r
        → Rounds env (λ x. code_of a x) (λ x. code_of b x) m r
    code_of-Rounds _ _ _ _ (runs_done {a} {b} {m} m1 {r} ha calm1 popped) =
        done m1 (code_of-Effect a m m1 ha) calm1 popped
    code_of-Rounds _ _ _ _ (runs_again {a} {b} {m} m1 m2 m3 {r} ha calm1 popped hb calm3 h) =
        again m1 m2 m3 (code_of-Effect a m m1 ha) calm1 popped (code_of-Effect b m2 m3 hb) calm3
          (code_of-Rounds a b m3 r h)

    pub code_of_all-Effect :
        (es : Exprs) (m r : Machine G) → RunsAll env es m r → Effect env (λ c. code_of_all es c) m r
    code_of_all-Effect _ _ _ (runs_none {m}) = λ c code x. Reaches-refl env code (pos c) m
    code_of_all-Effect _ _ _ (runs_then {e} {es} {m} m1 {r} h hs) =
        after-Effect (λ c. code_of e c) (λ c. code_of_all es c) (code_of_all-Good es) m m1 r
          (code_of-Effect e m m1 h) (code_of_all-Effect es m1 r hs)
