-- ===== src/Compile/Expr.antt =====
-- The expressions of the language, the code that src/compile.c and src/lib_spec.c build for them, and
-- what they mean, without instructions, positions or labels.
pub mod Effect
pub mod Run
pub mod Reads
pub mod Sforms
pub mod Compiled
pub mod Correct
pub mod Program
mod Tests
use ak_lisp.Base.{
  ℕ, zero, suc, ◌+◌, Bool, true, false, Option, none, some, List, [], ◌∷◌, ◌++◌, ◌≡◌,
}
use ak_lisp.Values.{Value, is_nil_or_null, new_nil_value}
use ak_lisp.Machine.{
  Machine, undefined_variable, raise, stack_push, stack_top, takes_frame, frame_at,
}
use ak_lisp.Machine.Code.{Code, build_push, build_load, build_call, build_set}
use ak_lisp.Machine.Code.Blocks.{if_code, when_code, while_code}
use ak_lisp.Machine.Exec.{
  Env, bound_function, call_function_bound, exec_branch, run, push_or, looked_up, assigned,
}
use ak_lisp.Machine.Exec.Jumps.{Popped}

-- A name goes with its position among the arguments, a call with the function that its name has when
-- it is compiled.
mutual
  pub data Expr : Type 0 where
    const : Value → Expr
    name : Option ℕ → ℕ → Expr
    apply : ℕ → Option ℕ → Exprs → Expr
    if_of : Expr → Expr → Expr → Expr
    when_of while_of : Expr → Expr → Expr
    set_of : ℕ → Expr → Expr

  pub data Exprs : Type 0 where
    no_exprs : Exprs
    then_expr : Expr → Exprs → Exprs

abbrev pub count : Exprs → ℕ
count no_exprs = 0
count (then_expr e es) = suc (count es)

-- The code, behind the code so far.
unfoldable mutual
  pub code_of : Expr → Code → Code
  code_of (const v) c = build_push (some v) c
  code_of (name found s) c = build_load found s c
  code_of (apply s fn es) c = build_call s fn (count es) (code_of_all es c)
  code_of (if_of a b d) c = if_code (λ x. code_of a x) (λ x. code_of b x) (λ x. code_of d x) c
  code_of (when_of a b) c = when_code (λ x. code_of a x) (λ x. code_of b x) c
  code_of (while_of a b) c = while_code (λ x. code_of a x) (λ x. code_of b x) c
  code_of (set_of s e) c = build_set s (code_of e c)

  pub code_of_all : Exprs → Code → Code
  code_of_all no_exprs c = c
  code_of_all (then_expr e es) c = code_of_all es (code_of e c)

module _ {G : Type 0} (env : Env G) where
  -- The value of a name is pushed; an argument that the frame lacks pushes nothing.
  abbrev pub name_pushed : Option ℕ → ℕ → Machine G → Machine G
  name_pushed (some i) s m = push_or env (frame_at m i) m m
  name_pushed none s m = looked_up env s m

  -- A call of the function `f`, or of none, whose arguments are no values of the caller's frame. `j` units of fuel are enough for the body.
  pub data Called (s argc : ℕ) : Option ℕ × Machine G → Machine G → Type 0 where
    unbound : (m : Machine G) → Called s argc (none, m) m
    bound :
        (f j : ℕ) (m r : Machine G)
        → takes_frame argc m ≡ false
        → ((n : ℕ)
            → call_function_bound env (λ t x. run env (j + n) t x) (some s) f argc m ≡ some r)
        → Called s argc (some f, m) r

  abbrev pub Calm : Machine G → Type 0
  Calm m = m.ai_interrupted ≡ false

  -- From `m` the expression comes to `r`; no interrupt comes in between.
  mutual
    pub data Runs : Expr → Machine G → Machine G → Type 0 where
      runs_const : {v : Value} {m : Machine G} → Calm m → Runs (const v) m (stack_push v m)
      runs_name :
          {found : Option ℕ} {s : ℕ} {m : Machine G}
          → Calm m
          → Runs (name found s) m (name_pushed found s m)
      runs_apply :
          {s : ℕ} {fn : Option ℕ} {es : Exprs} {m : Machine G} (m1 : Machine G) {r : Machine G}
          → RunsAll es m m1
          → Calm m1
          → Called s (count es) (bound_function env s fn m1) r
          → Runs (apply s fn es) m r
      runs_if_true :
          {a b d : Expr} {m : Machine G} (m1 m2 : Machine G) {r : Machine G}
          → Runs a m m1
          → Calm m1
          → Popped m1 false m2
          → Runs b m2 r
          → Calm r
          → Runs (if_of a b d) m r
      runs_if_nil :
          {a b d : Expr} {m : Machine G} (m1 m2 : Machine G) {r : Machine G}
          → Runs a m m1
          → Calm m1
          → Popped m1 true m2
          → Runs d m2 r
          → Runs (if_of a b d) m r
      runs_when_true :
          {a b : Expr} {m : Machine G} (m1 m2 : Machine G) {r : Machine G}
          → Runs a m m1
          → Calm m1
          → Popped m1 false m2
          → Runs b m2 r
          → Runs (when_of a b) m r
      runs_when_nil :
          {a b : Expr} {m : Machine G} (m1 : Machine G) {r : Machine G}
          → Runs a m m1
          → Calm m1
          → Popped m1 true r
          → Runs (when_of a b) m r
      runs_while : {a b : Expr} {m r : Machine G} → RunsRounds a b m r → Runs (while_of a b) m r
      runs_set :
          {s : ℕ} {e : Expr} {m : Machine G} (m1 : Machine G)
          → Runs e m m1
          → Calm m1
          → Runs (set_of s e) m (assigned env s (stack_top m1) m1)

    pub data RunsRounds : Expr → Expr → Machine G → Machine G → Type 0 where
      runs_done :
          {a b : Expr} {m : Machine G} (m1 : Machine G) {r : Machine G}
          → Runs a m m1
          → Calm m1
          → Popped m1 true r
          → RunsRounds a b m r
      runs_again :
          {a b : Expr} {m : Machine G} (m1 m2 m3 : Machine G) {r : Machine G}
          → Runs a m m1
          → Calm m1
          → Popped m1 false m2
          → Runs b m2 m3
          → Calm m3
          → RunsRounds a b m3 r
          → RunsRounds a b m r

    pub data RunsAll : Exprs → Machine G → Machine G → Type 0 where
      runs_none : {m : Machine G} → RunsAll no_exprs m m
      runs_then :
          {e : Expr} {es : Exprs} {m : Machine G} (m1 : Machine G) {r : Machine G}
          → Runs e m m1
          → RunsAll es m1 r
          → RunsAll (then_expr e es) m r
