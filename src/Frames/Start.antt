-- ===== src/Frames/Start.antt =====
-- `akl_init_frame`: a new frame on the last entries of the stack.
use mathlib.Core.Path.{subst}
use ak_lisp.Base.{
  ℕ, zero, suc, ◌+◌, ◌-◌, ◌^◌, ◌≡◌, refl, ap, sym, ◌∙◌, false, some, ◌==◌, [], ◌∷◌, ◌++◌, arith,
  length, length-append,
}
use ak_lisp.Vector.{u32}
use ak_lisp.Lists.{init}
use ak_lisp.Lists.Memory.{Entry, Heap}
use ak_lisp.Lists.Links.{Cells, has, has-append, last_of, last_of-append, Chain, cons, Chain-rest}
use ak_lisp.Lists.Writes.{load_lem}
use ak_lisp.Lists.Shape.{IsList}
use ak_lisp.Frames.{Context, init_frame, walk_back}
use ak_lisp.Frames.Segment.{IsTop}

-- `n` links back from `it` stands `q`, and no link on the way is NULL.
Steps : Heap → ℕ → ℕ → ℕ → Type 0
Steps h zero it q = it ≡ q
Steps h (suc n) it q =
    ((it == 0) ≡ false)
    × (r : Entry) × (h it ≡ some r)
    × ((r.le_prev == 0) ≡ false)
    × Steps h n r.le_prev q

walk_back-Steps : (h : Heap) (n it q : ℕ) → Steps h n it q → walk_back n it h ≡ some (q, h)
unfolding Steps walk_back
walk_back-Steps h zero it q s = ap (λ m. some (m, h)) s
walk_back-Steps h (suc n) it q (o, r, here, more, s) =
    rw (walk_back, o, load_lem h here o, more) (walk_back-Steps h n r.le_prev q s)

Steps-suc :
    (h : Heap) (n it q : ℕ) (r : Entry)
    → Steps h n it q
    → (q == 0) ≡ false
    → h q ≡ some r
    → (r.le_prev == 0) ≡ false
    → Steps h (suc n) it r.le_prev
unfolding Steps
Steps-suc h zero it q r s o here more =
    let back = sym s in
    (subst (λ a. (a == 0) ≡ false) back o, r, subst (λ a. h a ≡ some r) back here, more, refl)
Steps-suc h (suc n) it q r (o', r', here', more', s) o here more =
    (o', r', here', more', Steps-suc h n r'.le_prev q r s o here more)

Steps-Chain :
    {h : Heap} {e b : ℕ} (p x : ℕ) (cs : Cells)
    → Chain h e b ((p, x) ∷ cs)
    → has 0 ((p, x) ∷ cs) ≡ false
    → Steps h (length cs) (last_of p cs) p
unfolding Steps
Steps-Chain p x [] c z = refl
Steps-Chain {h} p x ((q, y) ∷ cs) (cons l (cons l' c)) z =
    Steps-suc h (length cs) (last_of q cs) q _ (Steps-Chain q y cs (cons l' c) (ground (arith, z)))
      (ground (arith, z)) l' (ground (arith, z))

init_frame-run :
    (h : Heap) (c : Context) (len n q : ℕ)
    → u32 (len + 2 ^ 32 - 1) ≡ n
    → walk_back n c.cx_stack.li_last h ≡ some (q, h)
    → init_frame (some len) c h
      ≡ some (
        record c {
          cx_frame = record init { li_head = q; li_last = c.cx_stack.li_last; li_count = len };
        },
        h,
      )
unfolding init_frame
init_frame-run h c len n q e run = rw (init_frame, e, run) refl

-- On a stack with at least `len` values, and `len` at least one, `akl_init_frame` makes a frame that
-- is the top of the stack and holds its last `len` values.
pub init_frame-IsTop :
    {h : Heap} (c : Context) (below : Cells) (p x : ℕ) (cs : Cells)
    → IsList h c.cx_stack (below ++ ((p, x) ∷ cs))
    → (c' : Context) × (init_frame (some (length ((p, x) ∷ cs))) c h ≡ some (c', h))
      × IsTop h c' below ((p, x) ∷ cs)
init_frame-IsTop {h} c below p x cs w =
    let len = length ((p, x) ∷ cs) in
    let rest = Chain-rest below ((p, x) ∷ cs) w.chain in
    let z : has 0 ((p, x) ∷ cs) ≡ false =
      ground (arith, w.no_null, has-append 0 below ((p, x) ∷ cs)) in
    let at_end : c.cx_stack.li_last ≡ last_of p cs =
      w.last ∙ last_of-append 0 below ((p, x) ∷ cs) in
    let walk = walk_back-Steps h (length cs) (last_of p cs) p (Steps-Chain p x cs rest z) in
    let n : u32 (len + 2 ^ 32 - 1) ≡ length cs =
      omega (arith, w.small, length-append below ((p, x) ∷ cs)) in
    (
      record c {
        cx_frame = record init { li_head = p; li_last = c.cx_stack.li_last; li_count = len };
      },
      init_frame-run h c len (length cs) p n
          (subst (λ q. walk_back (length cs) q h ≡ some (p, h)) (sym at_end) walk),
      record { stack = w; head = refl; ends = at_end; count = refl },
    )
