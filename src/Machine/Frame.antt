-- ===== src/Machine/Frame.antt =====
-- The end of a frame, `akl_frame_destroy`, and what a call of a function in C does to the stack.
use mathlib.Core.Option
use ak_lisp.Base.{
  ℕ, zero, suc, ◌+◌, ◌-◌, ◌≤◌, false, ◌||◌, Option, none, some, List, [], ◌∷◌, ◌++◌, ◌≡◌, refl, ap,
  sym, ◌∙◌, arith, length, get_elem?, take, drop, length-append, take-append_le, ◌==◌,
  if◌then◌else◌,
}
use ak_lisp.Values.{Value}
use ak_lisp.Machine.{
  Machine, stack_push, remove_at, init_frame, without_last, unless_null, frame_pop, pop_frame,
  frame_destroy,
}
use ak_lisp.Machine.Exec.{Env, Runner, cfun, after_cfun, with_frame, call_function_bound}

module _ {ℓ} {A : Type ℓ} where
  take-append :
      (n k : ℕ) (xs ys : List A) → n ≤ k → k ≤ length xs → take n (take k xs ++ ys) ≡ take n xs
  take-append zero k xs ys h l = refl
  take-append (suc n) zero xs ys h l = absurd (omega arith)
  take-append (suc n) (suc k) [] ys h l = absurd (omega arith)
  take-append (suc n) (suc k) (x ∷ xs) ys h l =
      ap (λ r. x ∷ r) (take-append n k xs ys (omega arith) (omega arith))

  drop-append : (k : ℕ) (xs ys : List A) → k ≤ length xs → drop k (take k xs ++ ys) ≡ ys
  drop-append zero xs ys l = refl
  drop-append (suc k) [] ys l = absurd (omega arith)
  drop-append (suc k) (x ∷ xs) ys l = drop-append k xs ys (omega arith)

  drop-length : (xs ys : List A) → drop (length xs) (xs ++ ys) ≡ ys
  drop-length [] ys = refl
  drop-length (x ∷ xs) ys = drop-length xs ys

  length-remove_at :
      (k : ℕ) (xs : List A)
      → suc k ≤ length xs
      → length (take k xs ++ drop (suc k) xs) + 1 ≡ length xs
  length-remove_at k [] l = absurd (omega arith)
  length-remove_at zero (x ∷ xs) l = omega arith
  length-remove_at (suc k) (x ∷ xs) l = omega (arith, length-remove_at k xs (omega arith))

  get_elem?-some : (i : ℕ) (xs : List A) → suc i ≤ length xs → (v : A) × (get_elem? xs i ≡ some v)
  get_elem?-some i [] h = absurd (omega arith)
  get_elem?-some zero (x ∷ xs) h = (x, refl)
  get_elem?-some (suc i) (x ∷ xs) h = get_elem?-some i xs (omega arith)

  take-drop : (i : ℕ) (xs : List A) → take i xs ++ drop i xs ≡ xs
  take-drop zero xs = refl
  take-drop (suc i) [] = refl
  take-drop (suc i) (x ∷ xs) = ap (λ r. x ∷ r) (take-drop i xs)

module _ {G : Type 0} where
  -- A frame whose values are on the stack.
  abbrev pub InStack : Machine G → Type 0
  InStack m = (m.frame_count ≤ m.frame_end) × (m.frame_end ≤ length m.stack)

  frame_pop-nonempty :
      (m : Machine G)
      → ((m.frame_count == 0) || (m.frame_end == 0)) ≡ false
      → frame_pop m ≡ (get_elem? m.stack (m.frame_end - 1), without_last m)
  unfolding frame_pop
  frame_pop-nonempty m h =
      ap (λ b. if b then (none, m) else (get_elem? m.stack (m.frame_end - 1), without_last m)) h

  pop_frame-suc :
      (n : ℕ) (m : Machine G)
      → m.frame_count ≡ suc n
      → InStack m
      → pop_frame (suc n) m ≡ pop_frame n (without_last m)
  unfolding pop_frame
  pop_frame-suc n m e (le, le2) =
      let test : ((m.frame_count == 0) || (m.frame_end == 0)) ≡ false = ground arith in
      let (v, found) = get_elem?-some (m.frame_end - 1) m.stack (omega arith) in
      let first = frame_pop-nonempty m test ∙ ap (λ o. (o, without_last m)) found in
      ap (λ o. unless_null o (pop_frame n o.1)) first

  pop_frame-stack :
      (n : ℕ) (m : Machine G)
      → m.frame_count ≡ n
      → InStack m
      → (pop_frame n m).stack ≡ take (m.frame_end - n) m.stack ++ drop m.frame_end m.stack
  unfolding pop_frame
  pop_frame-stack zero m e h = sym (
      ap (λ k. take k m.stack ++ drop m.frame_end m.stack) (omega arith)
      ∙ take-drop m.frame_end m.stack)
  pop_frame-stack (suc n) m e (le, le2) =
      let k = m.frame_end - 1 in
      let up : k + 1 ≡ m.frame_end = omega arith in
      let size = length-remove_at k m.stack (omega arith) in
      let size2 : length (remove_at m.stack k) + 1 ≡ length m.stack =
        ap (λ i. length (take k m.stack ++ drop i m.stack) + 1) {y = suc k} (omega arith) ∙ size in
      let rest = pop_frame-stack n (without_last m) (omega arith) (omega arith, omega arith) in
      ap (λ r. r.stack) (pop_frame-suc n m e (le, le2))
      ∙ rest
      ∙ ap (λ r. r ++ drop k (remove_at m.stack k))
          (take-append (k - n) k m.stack (drop (k + 1) m.stack) (omega arith) (omega arith))
      ∙ ap (λ r. take (k - n) m.stack ++ r)
          (drop-append k m.stack (drop (k + 1) m.stack) (omega arith))
      ∙ ap (λ i. take (k - n) m.stack ++ drop i m.stack) up
      ∙ ap (λ i. take i m.stack ++ drop m.frame_end m.stack) (omega arith)

  -- The values of the frame go, and those below and above it stay.
  pub frame_destroy-stack :
      (m : Machine G)
      → InStack m
      → (frame_destroy m).stack
        ≡ take (m.frame_end - m.frame_count) m.stack ++ drop m.frame_end m.stack
  unfolding frame_destroy
  frame_destroy-stack m h = pop_frame-stack m.frame_count m refl h

module _ {G : Type 0} (env : Env G) where
  -- Take a call of a function in C that gives a value, and leaves its frame as the last values of the
  -- stack with no more values in the frame than there are. The call takes what is left of the frame
  -- off the stack, pushes the value, and gives the caller back its own frame.
  pub call_function_bound-cfun :
      (run : Runner G) (s : Option ℕ) (fn argc f : ℕ) (m r : Machine G) (v : Value)
      → env.function fn ≡ cfun f
      → env.call_c run f argc (init_frame argc m) ≡ some (some v, r)
      → r.frame_count ≤ r.frame_end
      → r.frame_end ≡ length r.stack
      → (c : Machine G) × (call_function_bound env run s fn argc m ≡ some c)
        × (c.stack ≡ take (r.frame_end - r.frame_count) r.stack ++ (v ∷ []))
        × (c.frame_head ≡ m.frame_head)
        × (c.frame_end ≡ m.frame_end)
        × (c.frame_count ≡ m.frame_count)
  unfolding call_function_bound
  call_function_bound-cfun run s fn argc f m r v is_c gives le last =
      let size = length-append r.stack (v ∷ []) in
      let done = frame_destroy (stack_push v r) in
      let stack = frame_destroy-stack (stack_push v r) (le, omega arith) in
      (
        with_frame env m done,
        rw is_c (
            ap (Option.map (λ (t : Machine G). with_frame env m (frame_destroy t)))
              (ap (Option.map (after_cfun env s)) gives)),
        stack
            ∙ ap (λ t. t ++ drop r.frame_end (r.stack ++ (v ∷ [])))
                (take-append_le (r.frame_end - r.frame_count) r.stack (v ∷ []) (omega arith))
            ∙ ap (λ k. take (r.frame_end - r.frame_count) r.stack ++ drop k (r.stack ++ (v ∷ [])))
                last
            ∙ ap (λ t. take (r.frame_end - r.frame_count) r.stack ++ t)
                (drop-length r.stack (v ∷ [])),
        refl,
        refl,
        refl,
      )
