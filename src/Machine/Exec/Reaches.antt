-- ===== src/Machine/Exec/Reaches.antt =====
-- What one instruction does to the run of the code that holds it.
use ak_lisp.Base.{ℕ, suc, ◌+◌, false, some, ◌≡◌, ap, ◌∙◌, arith, get_elem?, if◌then◌else◌}
use ak_lisp.Machine.{Machine, interrupted_warning, raise}
use ak_lisp.Machine.Code.{Instr, Code}
use ak_lisp.Machine.Exec.{Env, goto, step, continue_with, fetched, exec_branch, run}

module _ {G : Type 0} (env : Env G) where
  -- From position `p` in `m` the loop comes to `q` in `r`, and any fuel behind the `j` units that
  -- calls may want is left.
  abbrev pub Reaches : Code → ℕ → Machine G → ℕ → Machine G → Type 0
  Reaches code p m q r =
      (k : ℕ) × (j : ℕ) × ((n : ℕ)
        → exec_branch env (k + (j + n)) code p m ≡ exec_branch env (j + n) code q r)

  pub Reaches-refl : (code : Code) (p : ℕ) (m : Machine G) → Reaches code p m p m
  Reaches-refl code p m = (0, 0, λ n. ap (λ k. exec_branch env k code p m) (omega arith))

  pub Reaches-trans :
      (code : Code) (p q o : ℕ) (m r s : Machine G)
      → Reaches code p m q r
      → Reaches code q r o s
      → Reaches code p m o s
  Reaches-trans code p q o m r s (k, j, h) (k2, j2, h2) = (
    k + k2,
    j + j2,
    λ n.
        ap (λ i. exec_branch env i code p m) (omega arith)
        ∙ h (k2 + (j2 + n))
        ∙ ap (λ i. exec_branch env i code q r) (omega arith)
        ∙ h2 (j + n)
        ∙ ap (λ i. exec_branch env i code o s) (omega arith),
  )

  -- The calls that `j` units of fuel are enough for.
  abbrev pub Steps : Code → Instr → ℕ → Machine G → ℕ → Machine G → Type 0
  Steps code i p m q r =
      (j : ℕ) × ((n : ℕ) → step env (λ t s. run env (j + n) t s) code i p m ≡ some (goto r q))

  exec_branch-suc :
      (code : Code) (i : Instr) (p q n : ℕ) (m r : Machine G)
      → get_elem? code.ir p ≡ some i
      → m.ai_interrupted ≡ false
      → step env (λ t s. run env n t s) code i p m ≡ some (goto r q)
      → exec_branch env (suc n) code p m ≡ exec_branch env n code q r
  unfolding exec_branch
  exec_branch-suc code i p q n m r at calm h =
      let go = λ (o : ℕ) (s : Machine G). exec_branch env n code o s in
      let exec = λ (k : Instr). step env (λ t s. run env n t s) code k p m in
      ap (λ o. fetched env go exec m o) at
      ∙ ap (λ b. if b then some (raise interrupted_warning m) else continue_with env go (exec i))
          calm
      ∙ ap (λ o. continue_with env go o) h

  pub Reaches-Steps :
      (code : Code) (i : Instr) (p q : ℕ) (m r : Machine G)
      → get_elem? code.ir p ≡ some i
      → m.ai_interrupted ≡ false
      → Steps code i p m q r
      → Reaches code p m q r
  Reaches-Steps code i p q m r at calm (j, h) = (
    1,
    j,
    λ n.
        ap (λ k. exec_branch env k code p m) (omega arith)
        ∙ exec_branch-suc code i p q (j + n) m r at calm (h n),
  )
