-- ===== src/Builtins/Table.antt =====
-- `akl_basic_funs` of src/lib.c, the table of the functions in C, and the calls through it.
use ak_lisp.Base.{ℕ, Option, none, some, List, [], ◌∷◌, get_elem?}
use ak_lisp.Values.{Value, Library}
use ak_lisp.Machine.{Machine}
use ak_lisp.Machine.Exec.{Runner, Globals, Function, Env}
use ak_lisp.Builtins.{Arith, Returned}
use ak_lisp.Builtins.Numbers.{inc, dec, iszero, plus, minus, mul, ddiv, idiv, mod_int}
use ak_lisp.Builtins.Predicates.{
  isnil, isstring, islist, isnumber, issymbol, not_fun, and_fun, or_fun, gt, gteq, lt, lteq, neq,
  eq,
}
use ak_lisp.Builtins.Sequences.{
  ls_head, ls_last, ls_tail, progn, list_fun, split, length_fun, ls_index, range, toint, tonumber,
  tostr,
}
use ak_lisp.Builtins.Apply.{map_fun, map_index, foldl_fun, times, times_index}

-- A function in C; the outer `none` is a fault.
abbrev pub CFun : Type 0 → Type 0
CFun G = Runner G → Machine G → Option (Returned G)

-- What the functions call, and the functions of the table that are not modelled.
pub record Linked (G : Type 0) : Type 0 where
  pub arith : Arith
  pub library : Library
  pub fuel : ℕ
  pub strtok : (text delimiter : List ℕ) → List (List ℕ)
  pub ls_append : CFun G
  pub ls_insert : CFun G
  pub akl_cfg : CFun G
  pub describe : CFun G
  pub exit : CFun G

module _ {G : Type 0} where
  abbrev returns : (Machine G → Returned G) → CFun G
  returns f = λ k m. some (f m)

  abbrev may_fault : (Machine G → Option (Returned G)) → CFun G
  may_fault f = λ k m. f m

  module _ (l : Linked G) where
    -- In the order of the table.
    unfoldable pub akl_basic_funs : List (CFun G)
    akl_basic_funs =
        returns (inc l.arith)
        ∷ returns (dec l.arith)
        ∷ returns (plus l.arith)
        ∷ returns (minus l.arith)
        ∷ returns (mul l.arith)
        ∷ returns (ddiv l.arith)
        ∷ may_fault (idiv l.arith)
        ∷ may_fault (mod_int l.arith)
        ∷ may_fault (mod_int l.arith)
        ∷ may_fault (neq l.library l.fuel)
        ∷ may_fault (eq l.library l.fuel)
        ∷ may_fault (gt l.library l.fuel)
        ∷ may_fault (lt l.library l.fuel)
        ∷ may_fault (gteq l.library l.fuel)
        ∷ may_fault (lteq l.library l.fuel)
        ∷ returns not_fun
        ∷ returns and_fun
        ∷ returns or_fun
        ∷ returns (iszero l.arith)
        ∷ returns isnil
        ∷ returns isnumber
        ∷ returns isstring
        ∷ returns islist
        ∷ returns issymbol
        ∷ returns (tonumber l.arith l.library)
        ∷ may_fault (toint l.arith l.library)
        ∷ may_fault (tostr l.arith l.library)
        ∷ returns list_fun
        ∷ returns (length_fun l.arith)
        ∷ returns (ls_index l.arith)
        ∷ returns ls_head
        ∷ returns ls_head
        ∷ returns ls_head
        ∷ returns ls_tail
        ∷ returns ls_tail
        ∷ returns ls_last
        ∷ l.ls_append
        ∷ l.ls_insert
        ∷ returns (split l.strtok)
        ∷ may_fault (range l.arith)
        ∷ returns progn
        ∷ l.akl_cfg
        ∷ l.describe
        ∷ (λ k m. map_fun k m)
        ∷ (λ k m. map_index l.arith k m)
        ∷ (λ k m. foldl_fun k m)
        ∷ (λ k m. foldl_fun k m)
        ∷ (λ k m. times l.arith k m)
        ∷ (λ k m. times_index l.arith k m)
        ∷ l.exit
        ∷ []

    -- A call of the function at a place of the table.
    unfoldable pub call_cfun : Runner G → ℕ → ℕ → Machine G → Option (Option Value × Machine G)
    unfolding akl_basic_funs
    call_cfun k f argc m = elim (get_elem? akl_basic_funs f) [ none ↦ none | some fn ↦ fn k m ]

    -- The executor with the functions of the table.
    abbrev pub with_basic_funs : Globals G → (ℕ → Function) → Env G
    with_basic_funs vars function = record {
      vars = vars;
      function = function;
      call_c = λ k f argc m. call_cfun k f argc m;
    }
