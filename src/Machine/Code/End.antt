-- ===== src/Machine/Code/End.antt =====
-- The NOP at the end of code that is being built, and its removal by `akl_compile`.
use mathlib.Core.Path.{subst}
use ak_lisp.Base.{
  ℕ, ◌-◌, none, some, List, [], ◌∷◌, ◌++◌, ◌≡◌, ◌⊎◌, inl, inr, refl, ap, sym, ◌∙◌, arith, length,
  set, get_elem?, take, if◌then◌else◌, get_elem?-take, get_elem?-take_self, get_elem?-append_self,
  length-append,
}
use ak_lisp.Machine.Code.{
  Instr, Code, nop, empty, with_first, create_or_get_instr, build, build_label, is_nop, without_nop,
}
use ak_lisp.Machine.Code.Order.{pos, Holds, pos-build_label}
use ak_lisp.Machine.Code.Blocks.{Builder, if_code, when_code, while_code}

-- The instruction to fill in is a NOP, if there is one.
abbrev pub Ended : Code → Type 0
Ended c = get_elem? (with_first c.ir) (pos c) ≡ some nop

abbrev pub Ending : Builder → Type 0
Ending f = (c : Code) → Ended c → Ended (f c)

pub empty-Ended : Ended empty
unfolding with_first
empty-Ended = refl

with_first-append : (is : List Instr) (i : Instr) → with_first (is ++ (i ∷ [])) ≡ is ++ (i ∷ [])
unfolding with_first
with_first-append [] i = refl
with_first-append (x ∷ is) i = refl

with_first_twice : (is : List Instr) → with_first (with_first is) ≡ with_first is
unfolding with_first
with_first_twice [] = refl
with_first_twice (x ∷ is) = refl

ended-append :
    (is : List Instr)
    → get_elem? (with_first (is ++ (nop ∷ []))) (length (is ++ (nop ∷ [])) - 1) ≡ some nop
ended-append is =
    let e : length (is ++ (nop ∷ [])) - 1 ≡ length is =
      omega (arith, length-append is (nop ∷ [])) in
    ap (λ k. get_elem? (with_first (is ++ (nop ∷ []))) k) e
    ∙ ap (λ r. get_elem? r (length is)) (with_first-append is nop)
    ∙ get_elem?-append_self is [] nop

pub build-Ended : (i : Instr) (c : Code) → Ended (build i c)
unfolding build
build-Ended i c = let d = create_or_get_instr c in ended-append (set d.ir (length d.ir - 1) i)

pub build_label-Ending : (l : ℕ) → Ending (build_label l)
unfolding build_label create_or_get_instr
build_label-Ending l c h =
    ap (λ k. get_elem? (with_first (with_first c.ir)) k) (pos-build_label l c)
    ∙ ap (λ r. get_elem? r (pos c)) (with_first_twice c.ir)
    ∙ h

pub when_code-Ending : (fa fb : Builder) → Ending fb → Ending (when_code fa fb)
unfolding when_code
when_code-Ending fa fb gb c h =
    let d = build _ (fa _) in build_label-Ending _ (fb d) (gb d (build-Ended _ (fa _)))

pub while_code-Ending : (fa fb : Builder) → Ending (while_code fa fb)
unfolding while_code
while_code-Ending fa fb c h = build_label-Ending _ _ (build-Ended _ _)

pub if_code-Ending : (fa fb fd : Builder) → Ending fd → Ending (if_code fa fb fd)
unfolding if_code
if_code-Ending fa fb fd gd c h =
    build_label-Ending _ _ (gd _ (build_label-Ending _ _ (build-Ended _ _)))

empty_or_nop :
    (is : List Instr)
    → get_elem? (with_first is) (length is - 1) ≡ some nop
    → (is ≡ []) ⊎ (get_elem? is (length is - 1) ≡ some nop)
unfolding with_first
empty_or_nop [] h = inl refl
empty_or_nop (i ∷ is) h = inr h

abbrev Cut : Code → Code → Type 0
Cut c d = Holds c d × (get_elem? d.ir (pos c) ≡ none)

-- Nothing is lost but the NOP, and behind what is left the code ends.
pub without_nop-Cut :
    (c : Code) → Ended c → Holds c (without_nop c) × (get_elem? (without_nop c).ir (pos c) ≡ none)
unfolding without_nop
without_nop-Cut c h = elim (empty_or_nop c.ir h) [
  | inl e ↦
      let same : without_nop c ≡ c =
        ap
          (λ is.
            if is_nop (get_elem? is (length is - 1))
            then record c { ir = take (length is - 1) is }
            else c)
          e in
      subst (λ d. Cut c d) (sym same)
        ((λ p lt. refl, λ l q k. k), ap (λ is. get_elem? is (length is - 1)) e)
  | inr e ↦
      let cut = record c { ir = take (pos c) c.ir } in
      let same : without_nop c ≡ cut = ap (λ o. if is_nop o then cut else c) e in
      subst (λ d. Cut c d) (sym same)
        ((λ p lt. get_elem?-take (pos c) p c.ir lt, λ l q k. k), get_elem?-take_self (pos c) c.ir)
]
