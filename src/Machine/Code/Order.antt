-- ===== src/Machine/Code/Order.antt =====
-- What the builders leave in place: code only grows, and a label that points somewhere stays.
use ak_lisp.Base.{
  ℕ, zero, suc, ◌+◌, ◌-◌, ◌<◌, ◌≤◌, Option, none, some, List, [], ◌∷◌, ◌++◌, ◌≡◌, ◌≢◌, refl, ap,
  ◌∙◌, arith, length, set, get_elem?, replicate, length-append, length-set, get_elem?-append_left,
  get_elem?-set_self, get_elem?-set_ne, get_elem?_lt,
}
use ak_lisp.Machine.Code.{
  Instr, Code, nop, with_first, create_or_get_instr, build, build_label, new_labels,
}

-- The position of the instruction to fill in next.
abbrev pub pos : Code → ℕ
pos c = length c.ir - 1

abbrev pub SameInstrs : Code → Code → Type 0
SameInstrs c d = (p : ℕ) → p < pos c → get_elem? d.ir p ≡ get_elem? c.ir p

abbrev pub KeptLabels : Code → Code → Type 0
KeptLabels c d =
    (l q : ℕ) → get_elem? c.labels l ≡ some (some q) → get_elem? d.labels l ≡ some (some q)

-- `d` is `c` and more.
abbrev pub Extends : Code → Code → Type 0
Extends c d = (pos c ≤ pos d) × SameInstrs c d × KeptLabels c d

-- `d` has the labels of `c` as they are, and perhaps more.
abbrev pub SameLabels : Code → Code → Type 0
SameLabels c d =
    (length c.labels ≤ length d.labels)
    × ((l : ℕ) → l < length c.labels → get_elem? d.labels l ≡ get_elem? c.labels l)

-- Finished code that has what `c` has so far.
abbrev pub Holds : Code → Code → Type 0
Holds c d = SameInstrs c d × KeptLabels c d

pub Extends-Holds : (c d e : Code) → Extends c d → Holds d e → Holds c e
Extends-Holds c d e h k =
    let le = h.0 in (λ p lt. k.0 p (omega arith) ∙ h.1 p lt, λ l q s. k.1 l q (h.2 l q s))

pub Extends-refl : (c : Code) → Extends c c
Extends-refl c = (omega arith, λ p h. refl, λ l q h. h)

pub Extends-trans : (c d e : Code) → Extends c d → Extends d e → Extends c e
Extends-trans c d e h k =
    let le = h.0 in
    let le2 = k.0 in
    (omega arith, λ p lt. k.1 p (omega arith) ∙ h.1 p lt, λ l q s. k.2 l q (h.2 l q s))

pub SameLabels-trans : (c d e : Code) → SameLabels c d → SameLabels d e → SameLabels c e
SameLabels-trans c d e h k =
    let le = h.0 in let le2 = k.0 in (omega arith, λ l lt. k.1 l (omega arith) ∙ h.1 l lt)

length-with_first : (is : List Instr) → length (with_first is) ≡ suc (length is - 1)
unfolding with_first
length-with_first [] = refl
length-with_first (i ∷ is) = omega arith

get_elem?-with_first :
    (is : List Instr) (p : ℕ) → p < length is - 1 → get_elem? (with_first is) p ≡ get_elem? is p
unfolding with_first
get_elem?-with_first [] p h = absurd (omega arith)
get_elem?-with_first (i ∷ is) p h = refl

pub pos-build : (i : Instr) (c : Code) → pos (build i c) ≡ suc (pos c)
unfolding build create_or_get_instr
pos-build i c =
    let is = with_first c.ir in
    omega (
      arith,
      length-with_first c.ir,
      length-set is (length is - 1) i,
      length-append (set is (length is - 1) i) (nop ∷ []),
    )

-- The instruction that is built.
pub build-instr : (i : Instr) (c : Code) → get_elem? (build i c).ir (pos c) ≡ some i
unfolding build create_or_get_instr
build-instr i c =
    let is = with_first c.ir in
    let size = length-with_first c.ir in
    let size2 = length-set is (length is - 1) i in
    let e : length is - 1 ≡ pos c = omega arith in
    get_elem?-append_left (set is (length is - 1) i) (nop ∷ []) (pos c) (omega arith)
    ∙ ap (λ k. get_elem? (set is k i) (pos c)) e
    ∙ get_elem?-set_self is (pos c) i (omega arith)

pub build-Extends : (i : Instr) (c : Code) → Extends c (build i c)
unfolding build create_or_get_instr
build-Extends i c =
    let is = with_first c.ir in
    let size = length-with_first c.ir in
    let size2 = length-set is (length is - 1) i in
    let more = pos-build i c in
    (
      omega arith,
      λ p h.
          get_elem?-append_left (set is (length is - 1) i) (nop ∷ []) p (omega arith)
          ∙ get_elem?-set_ne is (length is - 1) p i (λ e. absurd (omega arith))
          ∙ get_elem?-with_first c.ir p h,
      λ l q h. h,
    )

pub build-SameLabels : (i : Instr) (c : Code) → SameLabels c (build i c)
unfolding build create_or_get_instr
build-SameLabels i c = (omega arith, λ l h. refl)

pub pos-build_label : (l : ℕ) (c : Code) → pos (build_label l c) ≡ pos c
unfolding build_label create_or_get_instr
pos-build_label l c = omega (arith, length-with_first c.ir)

pub build_label-label :
    (l : ℕ) (c : Code)
    → l < length c.labels
    → get_elem? (build_label l c).labels l ≡ some (some (pos c))
unfolding build_label create_or_get_instr
build_label-label l c h =
    let is = with_first c.ir in
    let e : length is - 1 ≡ pos c = omega (arith, length-with_first c.ir) in
    get_elem?-set_self c.labels l (some (length is - 1)) h ∙ ap (λ k. some (some k)) e

differ :
    (ls : List (Option ℕ)) (l k q : ℕ)
    → get_elem? ls l ≡ some none
    → get_elem? ls k ≡ some (some q)
    → l ≢ k
differ ls l k q h s same = grind arith

-- The label must not have been built.
pub build_label-Extends :
    (l : ℕ) (c : Code) → get_elem? c.labels l ≡ some none → Extends c (build_label l c)
unfolding build_label create_or_get_instr
build_label-Extends l c h =
    let is = with_first c.ir in
    let e = length-with_first c.ir in
    (
      omega arith,
      λ p lt. get_elem?-with_first c.ir p lt,
      λ k q s.
          get_elem?-set_ne c.labels l k (some (length is - 1))
            (λ same. differ c.labels l k q h s same)
          ∙ s,
    )

-- A label behind those of `c`.
pub build_label-SameLabels :
    (l : ℕ) (c d : Code) → SameLabels c d → length c.labels ≤ l → SameLabels c (build_label l d)
unfolding build_label create_or_get_instr
build_label-SameLabels l c d h le =
    let is = with_first d.ir in
    let size = length-set d.labels l (some (length is - 1)) in
    let old = h.0 in
    (
      omega arith,
      λ k lt.
          get_elem?-set_ne d.labels l k (some (length is - 1)) (λ e. absurd (omega arith))
          ∙ h.1 k lt,
    )

pub new_labels-SameLabels : (n : ℕ) (c : Code) → SameLabels c (new_labels n c).1
unfolding new_labels
new_labels-SameLabels n c =
    let size = length-append c.labels (replicate n none) in
    (omega arith, λ l h. get_elem?-append_left c.labels (replicate n none) l h)

pub new_labels-Extends : (n : ℕ) (c : Code) → Extends c (new_labels n c).1
unfolding new_labels
new_labels-Extends n c = (
  omega arith,
  λ p h. refl,
  λ l q s.
      get_elem?-append_left c.labels (replicate n none) l (get_elem?_lt c.labels l (some q) s) ∙ s,
)

get_elem?-append_right :
    (xs ys : List (Option ℕ)) (i : ℕ) → get_elem? (xs ++ ys) (length xs + i) ≡ get_elem? ys i
get_elem?-append_right [] ys i = ap (λ k. get_elem? ys k) (omega arith)
get_elem?-append_right (x ∷ xs) ys i =
    let e : suc (length xs) + i ≡ suc (length xs + i) = omega arith in
    ap (λ k. get_elem? (x ∷ (xs ++ ys)) k) e ∙ get_elem?-append_right xs ys i

get_elem?-replicate : (n i : ℕ) (a : Option ℕ) → i < n → get_elem? (replicate n a) i ≡ some a
get_elem?-replicate zero i a h = absurd (omega arith)
get_elem?-replicate (suc n) zero a h = refl
get_elem?-replicate (suc n) (suc i) a h = get_elem?-replicate n i a (omega arith)

-- The new labels are not built.
pub new_labels-unbuilt :
    (n : ℕ) (c : Code) (i : ℕ)
    → i < n
    → get_elem? (new_labels n c).1.labels (length c.labels + i) ≡ some none
unfolding new_labels
new_labels-unbuilt n c i h =
    get_elem?-append_right c.labels (replicate n none) i ∙ get_elem?-replicate n i none h
