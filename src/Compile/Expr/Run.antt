-- ===== src/Compile/Expr/Run.antt =====
-- `akl_execute` on the code of a whole program, as `akl_compile` leaves it.
use ak_lisp.Base.{ℕ, suc, ◌+◌, none, some, ◌≡◌, ap, ◌∙◌, arith, get_elem?}
use ak_lisp.Machine.{Machine}
use ak_lisp.Machine.Code.{Code, push, load, get, call, set_var, empty, without_nop}
use ak_lisp.Machine.Code.Order.{pos}
use ak_lisp.Machine.Code.End.{
  Ending, build-Ended, empty-Ended, if_code-Ending, when_code-Ending, while_code-Ending,
  without_nop-Cut,
}
use ak_lisp.Machine.Exec.{Env, exec_branch, run, new_stack, execute, fetched, step}
use ak_lisp.Compile.Expr.{
  Expr, const, name, apply, if_of, when_of, while_of, set_of, Exprs, no_exprs, then_expr, count,
  code_of, code_of_all, RunsAll,
}
use ak_lisp.Compile.Expr.Effect.{code_of_all-Effect}

mutual
  unfolding code_of

  code_of-Ending : (e : Expr) → Ending (λ c. code_of e c)
  code_of-Ending (const v) c h = build-Ended (push (some v)) c
  code_of-Ending (name none s) c h = build-Ended (get s) c
  code_of-Ending (name (some i) s) c h = build-Ended (load i) c
  code_of-Ending (apply s fn es) c h = build-Ended (call s fn (count es)) (code_of_all es c)
  code_of-Ending (if_of a b d) c h =
      if_code-Ending (λ x. code_of a x) (λ x. code_of b x) (λ x. code_of d x) (code_of-Ending d) c h
  code_of-Ending (when_of a b) c h =
      when_code-Ending (λ x. code_of a x) (λ x. code_of b x) (code_of-Ending b) c h
  code_of-Ending (while_of a b) c h = while_code-Ending (λ x. code_of a x) (λ x. code_of b x) c h
  code_of-Ending (set_of s e) c h = build-Ended (set_var s) (code_of e c)

  code_of_all-Ending : (es : Exprs) → Ending (λ c. code_of_all es c)
  code_of_all-Ending no_exprs c h = h
  code_of_all-Ending (then_expr e es) c h =
      code_of_all-Ending es (code_of e c) (code_of-Ending e c h)

module _ {G : Type 0} (env : Env G) where
  -- At a position behind the code the loop ends.
  exec_branch-end :
      (n : ℕ) (code : Code) (p : ℕ) (m : Machine G)
      → get_elem? code.ir p ≡ none
      → exec_branch env (suc n) code p m ≡ some m
  unfolding exec_branch
  exec_branch-end n code p m h =
      ap
        (fetched env (λ o s. exec_branch env n code o s)
          (λ k. step env (λ t s. run env n t s) code k p m) m)
        h

  -- A program whose expressions, one after another, take the machine with an empty stack from `m` to
  -- `r` is compiled to code with which `akl_execute` ends in `r`, for all fuel from some number on.
  pub execute-code_of_all :
      (es : Exprs) (m r : Machine G)
      → RunsAll env es (new_stack env m) r
      → (k : ℕ) × ((n : ℕ) → execute env (k + n) (without_nop (code_of_all es empty)) m ≡ some r)
  unfolding execute
  execute-code_of_all es m r h =
      let start = new_stack env m in
      let c = code_of_all es empty in
      let (holds, over) = without_nop-Cut c (code_of_all-Ending es empty empty-Ended) in
      let (k, j, run) = code_of_all-Effect env es start r h empty (without_nop c) holds in
      (
        k + (j + 1),
        λ n.
            ap (λ i. exec_branch env i (without_nop c) 0 start) (omega arith)
            ∙ run (suc n)
            ∙ ap (λ i. exec_branch env i (without_nop c) (pos c) r) (omega arith)
            ∙ exec_branch-end (j + n) (without_nop c) (pos c) r over,
      )
