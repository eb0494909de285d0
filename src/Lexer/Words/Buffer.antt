-- ===== src/Lexer/Words/Buffer.antt =====
-- Storing a character in the lexer's buffer.
use ak_lisp.Base.{
  ℕ, zero, suc, ◌+◌, ◌-◌, ◌/◌, ◌^◌, ◌<◌, ◌≤◌, ◌≡◌, inl, inr, refl, ap, sym, ◌∙◌, some, List, [],
  ◌∷◌, ◌++◌, arith, Bool-cases, length, length-append, set, take, resize, replicate,
  length-replicate, leb, lt→ltb, length-set,
}
use ak_lisp.Vector.{u32}
use ak_lisp.Lexer.Device.{Device, put_buffer, grown}

-- The buffer holds `xs`, and behind it there is room for a NUL; `c` stands there.
abbrev pub Holds : List ℕ → List ℕ → ℕ → Type 0
Holds b xs c = (ys : List ℕ) × (b ≡ xs ++ (c ∷ ys))

take_all : (n : ℕ) (xs : List ℕ) → length xs ≤ n → take n xs ≡ xs
take_all zero [] h = refl
take_all zero (x ∷ xs) h = absurd (omega arith)
take_all (suc n) [] h = refl
take_all (suc n) (x ∷ xs) h = ap (λ r. x ∷ r) (take_all n xs (omega arith))

set_at : (xs : List ℕ) (y v : ℕ) (ys : List ℕ) → set (xs ++ (y ∷ ys)) (length xs) v ≡ xs ++ (v ∷ ys)
set_at [] y v ys = refl
set_at (x ∷ xs) y v ys = ap (λ r. x ∷ r) (set_at xs y v ys)

set_after :
    (xs : List ℕ) (x y v : ℕ) (ys : List ℕ)
    → set (xs ++ (x ∷ y ∷ ys)) (suc (length xs)) v ≡ xs ++ (x ∷ v ∷ ys)
set_after [] x y v ys = refl
set_after (z ∷ xs) x y v ys = ap (λ r. z ∷ r) (set_after xs x y v ys)

pub append_last : (xs : List ℕ) (x : ℕ) (ys : List ℕ) → xs ++ (x ∷ ys) ≡ (xs ++ (x ∷ [])) ++ ys
append_last [] x ys = refl
append_last (z ∷ xs) x ys = ap (λ r. z ∷ r) (append_last xs x ys)

append_more :
    (xs : List ℕ) (x : ℕ) (ys zs : List ℕ) → (xs ++ (x ∷ ys)) ++ zs ≡ xs ++ (x ∷ (ys ++ zs))
append_more [] x ys zs = refl
append_more (w ∷ xs) x ys zs = ap (λ r. w ∷ r) (append_more xs x ys zs)

-- Two writes behind `xs`, where there is room for them.
two_writes :
    (b xs : List ℕ) (c ch : ℕ) (ys : List ℕ)
    → b ≡ xs ++ (c ∷ ys)
    → length xs + 1 < length b
    → Holds (set (set b (length xs) ch) (length xs + 1) 0) (xs ++ (ch ∷ [])) 0
two_writes b xs c ch [] e h = absurd (omega (arith, ap length e, length-append xs (c ∷ [])))
two_writes b xs c ch (y ∷ ys) e h =
    let n : length xs + 1 ≡ suc (length xs) = omega arith in
    (ys, rw (e, set_at xs c ch (y ∷ ys), n, set_after xs ch y 0 ys) (append_last xs ch (0 ∷ ys)))

module _ (junk : ℕ) where
  resize-append :
      (xs : List ℕ) (n : ℕ)
      → length xs ≤ n
      → resize junk xs n ≡ xs ++ replicate (n - length xs) junk
  unfolding resize
  resize-append xs n h = rw (take_all n xs h) refl

  grown-Holds :
      (d : Device) (xs : List ℕ) (c : ℕ)
      → Holds d.iod_buffer xs c
      → d.iod_buffer_size ≡ length d.iod_buffer
      → 2 ≤ d.iod_buffer_size
      → length xs + 1 < 2 ^ 31
      → (b : List ℕ) × (grown junk d (length xs)
          ≡ record d { iod_buffer = b; iod_buffer_size = length b })
        × (length xs + 1 < length b)
        × Holds b xs c
  grown-Holds d xs c (ys, e) s h small = elim (Bool-cases (leb d.iod_buffer_size (length xs + 1))) [
    | inr fits ↦ (
      d.iod_buffer,
      rw fits (ap (λ n. record d { iod_buffer_size = n }) s),
      ground (arith, fits, s),
      (ys, e),
    )
    | inl tight ↦
        let n = u32 (d.iod_buffer_size + d.iod_buffer_size / 2) in
        let room : length d.iod_buffer ≤ n =
          ground (arith, ap length e, length-append xs (c ∷ ys)) in
        let b = resize junk d.iod_buffer n in
        let grew : b ≡ d.iod_buffer ++ replicate (n - length d.iod_buffer) junk =
          resize-append d.iod_buffer n room in
        let long : length b ≡ n = omega (
          arith,
          ap length grew,
          length-append d.iod_buffer (replicate (n - length d.iod_buffer) junk),
          length-replicate (n - length d.iod_buffer) junk,
        ) in
        (
          b,
          rw tight (ap (λ m. record d { iod_buffer = b; iod_buffer_size = m }) (sym long)),
          ground (arith, long, tight, ap length e, length-append xs (c ∷ ys)),
          (
            _,
            grew
                ∙ ap (λ r. r ++ replicate (n - length d.iod_buffer) junk) e
                ∙ append_more xs c ys _,
          ),
        )
  ]

  -- Storing character `ch` behind the text `xs` never leaves the buffer: the text in it is then
  -- `xs` and `ch`, with a NUL.
  pub put_buffer-Holds :
      (d : Device) (xs : List ℕ) (c ch : ℕ)
      → Holds d.iod_buffer xs c
      → d.iod_buffer_size ≡ length d.iod_buffer
      → 2 ≤ d.iod_buffer_size
      → length xs + 1 < 2 ^ 31
      → (b : List ℕ) × (put_buffer junk (length xs) ch d
          ≡ some (tt, record d { iod_buffer = b; iod_buffer_size = length b }))
        × (2 ≤ length b)
        × Holds b (xs ++ (ch ∷ [])) 0
  unfolding put_buffer
  put_buffer-Holds d xs c ch w s h small =
      let (b, e, room, (ys, holds)) = grown-Holds d xs c w s h small in
      let b' = set (set b (length xs) ch) (length xs + 1) 0 in
      let kept : length b' ≡ length b =
        length-set (set b (length xs) ch) (length xs + 1) 0 ∙ length-set b (length xs) ch in
      (
        b',
        rw (e, lt→ltb (length xs + 1) (length b) room)
            (ap (λ n. some (tt, record d { iod_buffer = b'; iod_buffer_size = n })) (sym kept)),
        omega arith,
        two_writes b xs c ch ys holds room,
      )
