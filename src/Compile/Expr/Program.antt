-- ===== src/Compile/Expr/Program.antt =====
-- `akl_compile` and `akl_execute` on the lexemes of a program.
use mathlib.Core.Path.{subst}
use mathlib.Core.Option
use ak_lisp.Base.{ℕ, suc, ◌+◌, false, none, some, List, [], ◌≡◌, refl, ap, ◌∙◌, arith}
use ak_lisp.Machine.{Machine}
use ak_lisp.Machine.Code.{Code, empty, without_nop}
use ak_lisp.Machine.Exec.{Globals, Env, new_stack, execute}
use ak_lisp.Compile.Parse.{Lexeme}
use ak_lisp.Compile.Forms.{Compiler, emit, compile_next_on, ◌>>=◌}
use ak_lisp.Compile.Lists.{next, looped, compile_all, compile}
use ak_lisp.Compile.Expr.{Expr, Exprs, no_exprs, then_expr, code_of, code_of_all, RunsAll}
use ak_lisp.Compile.Expr.Reads.{Program, program_end, program_more}
use ak_lisp.Compile.Expr.Compiled.{at}
use ak_lisp.Compile.Expr.Correct.{next-Enough}
use ak_lisp.Compile.Expr.Run.{execute-code_of_all}

module _ {G : Type 0} (vars : Globals G) (c : Compiler G) (calm : c.ai_interrupted ≡ false) where
  AllCompiled : List Lexeme → Exprs → ℕ → ℕ → Type 0
  AllCompiled ts es j n =
      (k : Code) → compile_all vars j n (at vars c ts k) ≡ some (at vars c [] (code_of_all es k))

  end-AllCompiled : (j n : ℕ) → AllCompiled [] no_exprs (suc j) n
  unfolding AllCompiled compile_all code_of compile_next_on
  end-AllCompiled j n k = refl

  more-AllCompiled :
      (ts ts1 : List Lexeme) (e : Expr) (es : Exprs) (j n : ℕ)
      → ((k : Code)
          → next vars n (at vars c ts k) ≡ some (false, none, at vars c ts1 (code_of e k)))
      → AllCompiled ts1 es j n
      → AllCompiled ts (then_expr e es) (suc j) n
  unfolding AllCompiled compile_all code_of
  more-AllCompiled ts ts1 e es j n h hs k =
      ap (λ o. looped vars o (λ d. compile_all vars j n d)) (h k) ∙ hs (code_of e k)

  all-AllCompiled :
      {ts : List Lexeme} {es : Exprs}
      → Program vars c ts es
      → (k : ℕ) × ((j n : ℕ) → AllCompiled ts es (k + j) (k + n))
  all-AllCompiled program_end = (
    1,
    λ j n. subst (λ i. AllCompiled [] no_exprs i (1 + n)) (omega arith) (end-AllCompiled j (1 + n)),
  )
  all-AllCompiled (program_more {ts} ts1 {e} {es} h hs) =
      let (k1, h1) = next-Enough vars c calm h in
      let (k2, h2) = all-AllCompiled hs in
      (
        suc (k1 + k2),
        λ j n.
            let first =
              subst
                (λ i.
                  (k : Code)
                  → next vars i (at vars c ts k) ≡ some (false, none, at vars c ts1 (code_of e k)))
                {y = suc (k1 + k2) + n} (omega arith) (h1 (suc k2 + n)) in
            let rest =
              subst (λ i. AllCompiled ts1 es (k2 + (k1 + j)) i) {y = suc (k1 + k2) + n}
                (omega arith) (h2 (k1 + j) (suc k1 + n)) in
            subst (λ i. AllCompiled ts (then_expr e es) i (suc (k1 + k2) + n)) (omega arith)
              (more-AllCompiled ts ts1 e es (k2 + (k1 + j)) (suc (k1 + k2) + n) first rest),
      )

  compile-Program :
      (ts : List Lexeme) (es : Exprs)
      → Program vars c ts es
      → (k : ℕ) × ((n : ℕ)
          → compile vars (k + n) (at vars c ts empty)
            ≡ some (at vars c [] (without_nop (code_of_all es empty))))
  unfolding AllCompiled compile
  compile-Program ts es p =
      let (k, h) = all-AllCompiled p in
      (k, λ n. ap (Option.map (λ d. emit without_nop d)) (h n n empty))

module _ {G : Type 0} (env : Env G) where
  -- Take the lexemes of a program of constants, names, calls, if, when, while and set!, in a compiler
  -- with empty code, outside of a function, that no interrupt has reached. Let its expressions, by a semantics without
  -- instructions and labels, lead one after another from the machine with an empty stack and no frame to a machine r,
  -- with no interrupt on the way. Then akl_compile succeeds and akl_execute on the code ends in r, for
  -- all fuel from some number on.
  pub execute-compile :
      (c : Compiler G) (ts : List Lexeme) (es : Exprs) (m r : Machine G)
      → c.ai_interrupted ≡ false
      → c.args ≡ []
      → Program env.vars c ts es
      → RunsAll env es (new_stack env m) r
      → (k : ℕ) × ((n : ℕ)
          → (compile env.vars (k + n) (record c { rest = ts; code = empty }) >>= λ d.
              execute env (k + n) d.code m)
            ≡ some r)
  execute-compile c ts es m r calm outside p runs =
      let (k1, h1) = compile-Program env.vars c calm ts es p in
      let (k2, h2) = execute-code_of_all env es m r runs in
      (
        k1 + k2,
        λ n.
            ap
              (λ i. compile env.vars i (at env.vars c ts empty) >>= λ d.
                execute env (k1 + k2 + n) d.code m)
              (omega arith)
            ∙ ap (λ o. o >>= λ d. execute env (k1 + k2 + n) d.code m) (h1 (k2 + n))
            ∙ ap (λ i. execute env i (without_nop (code_of_all es empty)) m) (omega arith)
            ∙ h2 (k1 + n),
      )
