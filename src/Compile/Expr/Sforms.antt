-- ===== src/Compile/Expr/Sforms.antt =====
-- The special forms of src/lib_spec.c, where each part is compiled by `akl_compile_next`.
use ak_lisp.Base.{ℕ, ◌+◌, false, none, some, List, ◌∷◌, ◌≡◌, refl}
use ak_lisp.Machine.Code.{jmp, jn, build_set, build_label, build_jump, new_labels}
use ak_lisp.Machine.Exec.{Globals}
use ak_lisp.Compile.Parse.{Lexeme, atom}
use ak_lisp.Compile.Forms.{Compiler, CompiledNext, emit, sfun_sif, sfun_when, sfun_swhile, sfun_set}

module _ {G : Type 0} (vars : Globals G) (next : Compiler G → CompiledNext G) where
  -- One part: from the state `c` to the state `d`, with no function to return.
  abbrev pub Part : Compiler G → Compiler G → Type 0
  Part c d = next c ≡ some (false, none, d)

  pub sfun_sif-Part :
      (c c1 c2 c3 : Compiler G)
      → let l = (new_labels 2 c.code).0 in
        Part (record c { code = (new_labels 2 c.code).1 }) c1
        → Part (emit (build_jump jn (l + 1)) c1) c2
        → Part (emit (build_label (l + 1)) (emit (build_jump jmp l) c2)) c3
        → sfun_sif vars next c ≡ some (none, emit (build_label l) c3)
  unfolding sfun_sif
  sfun_sif-Part c c1 c2 c3 h1 h2 h3 = rw (h1, h2, h3) refl

  pub sfun_when-Part :
      (c c1 c2 : Compiler G)
      → let l = (new_labels 1 c.code).0 in
        Part (record c { code = (new_labels 1 c.code).1 }) c1
        → Part (emit (build_jump jn l) c1) c2
        → sfun_when vars next c ≡ some (none, emit (build_label l) c2)
  unfolding sfun_when
  sfun_when-Part c c1 c2 h1 h2 = rw (h1, h2) refl

  pub sfun_swhile-Part :
      (c c1 c2 : Compiler G)
      → let l = (new_labels 2 c.code).0 in
        Part (record c { code = build_label l (new_labels 2 c.code).1 }) c1
        → Part (emit (build_jump jn (l + 1)) c1) c2
        → sfun_swhile vars next c
          ≡ some (none, emit (build_label (l + 1)) (emit (build_jump jmp l) c2))
  unfolding sfun_swhile
  sfun_swhile-Part c c1 c2 h1 h2 = rw (h1, h2) refl

  pub sfun_set-Part :
      (c c1 : Compiler G) (x : ℕ) (ts : List Lexeme)
      → Part (record c { rest = ts }) c1
      → sfun_set vars next (record c { rest = atom x ∷ ts }) ≡ some (none, emit (build_set x) c1)
  unfolding sfun_set
  sfun_set-Part c c1 x ts h = rw h refl
