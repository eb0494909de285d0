-- ===== src/Lexer/Words/Copied.antt =====
-- What the copying loops of src/lexer.c put into the buffer, and where they stop.
use ak_lisp.Base.{
  ℕ, zero, suc, ◌+◌, ◌-◌, ◌^◌, ◌<◌, ◌≤◌, ◌≡◌, ◌⊎◌, inl, inr, refl, ap, sym, ◌∙◌, Bool, true, false,
  some, List, [], ◌∷◌, ◌++◌, map, arith, length, length-append, get_elem?, ◌==◌, if◌then◌else◌,
}
use ak_lisp.Vector.{u32}
use ak_lisp.Lexer.Device.{Device, getc, ungetc, is_eof}
use ak_lisp.Lexer.Words.{copy_while}
use ak_lisp.Lexer.Words.Buffer.{Holds, append_last, put_buffer-Holds}

-- The string holds `text` from a position on.
abbrev pub At : List ℕ → ℕ → List ℕ → Type 0
At s p [] = Unit {0}
At s p (c ∷ cs) = (get_elem? s p ≡ some c) × At s (p + 1) cs

-- Every character is one that the loop accepts, and no NUL.
abbrev pub Accepted : (ℕ → Bool) → List ℕ → Type 0
Accepted good [] = Unit {0}
Accepted good (c ∷ cs) = ((c == 0) ≡ false) × (good c ≡ true) × Accepted good cs

-- The device after `k` characters were read to buffer `b`.
abbrev pub read : Device → ℕ → List ℕ → Device
read d k b = record d {
  iod_pos = d.iod_pos + k;
  iod_char_count = u32 (d.iod_char_count + k);
  iod_buffer = b;
  iod_buffer_size = length b;
}

-- A buffer of the size that the device says, for at least one character and a NUL.
abbrev pub IsSized : Device → Type 0
IsSized d = (d.iod_buffer_size ≡ length d.iod_buffer) × (2 ≤ d.iod_buffer_size)

if-apply :
    {X Y : Type 0} (b : Bool) (f g : X → Y) (x : X)
    → (if b then f else g) x ≡ (if b then f x else g x)
if-apply true f g x = refl
if-apply false f g x = refl

read-read : (d : Device) (b c : List ℕ) (k : ℕ) → read (read d 1 b) k c ≡ read d (suc k) c
read-read d b c k =
    let p : d.iod_pos + 1 + k ≡ d.iod_pos + suc k = omega arith in
    let n : u32 (u32 (d.iod_char_count + 1) + k) ≡ u32 (d.iod_char_count + suc k) = omega arith in
    rw (p, n) refl

-- The character that ends a word.
abbrev pub Stops : (ℕ → Bool) → ℕ → Type 0
Stops good e = ((e == 0) ≡ true) ⊎ (((e == 0) ≡ false) × (good e ≡ false))

module _ (junk : ℕ) (good : ℕ → Bool) (change : ℕ → ℕ) where
  -- One round of the loop on a character that it accepts.
  round :
      (n : ℕ) (d : Device) (xs : List ℕ) (c old e : ℕ)
      → IsSized d
      → Holds d.iod_buffer xs old
      → length xs + 1 < 2 ^ 31
      → get_elem? d.iod_string d.iod_pos ≡ some c
      → get_elem? d.iod_string (d.iod_pos + 1) ≡ some e
      → (c == 0) ≡ false
      → good c ≡ true
      → (b : List ℕ) × (2 ≤ length b)
        × Holds b (xs ++ (change c ∷ [])) 0
        × (copy_while junk good change (suc n) (length xs) d ≡ (
            if e == 0
            then some (length xs + 1, read d 1 b)
            else copy_while junk good change n (length xs + 1) (read d 1 b)))
  unfolding copy_while getc is_eof
  round n d xs c old e w holds small here next o g =
      let d' = record d { iod_pos = d.iod_pos + 1; iod_char_count = u32 (d.iod_char_count + 1) } in
      let (b, run, long, holds') = put_buffer-Holds junk d' xs old (change c) holds w.0 w.1 small in
      (
        b,
        long,
        holds',
        rw (copy_while, getc, here, o, g, run, is_eof, next) (if-apply (e == 0) _ _ _),
      )

  -- The round that ends the loop goes back to the character that it does not accept.
  halt :
      (n i : ℕ) (d : Device) (e : ℕ)
      → d.iod_char_count < 2 ^ 32
      → get_elem? d.iod_string d.iod_pos ≡ some e
      → (e == 0) ≡ false
      → good e ≡ false
      → copy_while junk good change (suc n) i d ≡ some (i, d)
  unfolding copy_while getc ungetc
  halt n i d e small here o g =
      let p : d.iod_pos + 1 - 1 ≡ d.iod_pos = omega arith in
      let q : (d.iod_pos + 1 == 0) ≡ false = ground arith in
      let c : u32 (u32 (d.iod_char_count + 1) + 2 ^ 32 - 1) ≡ d.iod_char_count = omega arith in
      rw (copy_while, getc, here, o, g, ungetc, p, here, q, c)
        (ap (λ m. some (i, record d { iod_pos = m })) p)

  -- From a word of accepted characters the loop copies exactly the word, changed character by
  -- character, behind the text that is in the buffer, with a NUL, and stops at the character behind
  -- the word, if that is one where it has to stop.
  pub copy_while-word :
      (n : ℕ) (d : Device) (xs : List ℕ) (c : ℕ) (cs : List ℕ) (old e : ℕ)
      → IsSized d
      → Holds d.iod_buffer xs old
      → length xs + length (c ∷ cs) < 2 ^ 31
      → At d.iod_string d.iod_pos ((c ∷ cs) ++ (e ∷ []))
      → Accepted good (c ∷ cs)
      → Stops good e
      → length (c ∷ cs) < n
      → (b : List ℕ) × (2 ≤ length b)
        × Holds b (xs ++ map change (c ∷ cs)) 0
        × (copy_while junk good change n (length xs) d
            ≡ some (length xs + length (c ∷ cs), read d (length (c ∷ cs)) b))
  copy_while-word zero d xs c cs old e w holds small text ok stops fuel = absurd (omega arith)
  copy_while-word (suc zero) d xs c cs old e w holds small text ok stops fuel = absurd (omega arith)
  copy_while-word (suc (suc n)) d xs c [] old e w holds small text ok stops fuel =
      let (b, long, holds', run) =
        round (suc n) d xs c old e w holds (omega arith) text.0 text.1.0 ok.0 ok.1 in
      (
        b,
        long,
        holds',
        run ∙ elim stops [
          | inl z ↦ rw z refl
          | inr (o, bad) ↦ rw o (halt n (length xs + 1) (read d 1 b) e (omega arith) text.1.0 o bad)
        ],
      )
  copy_while-word (suc (suc n)) d xs c (c' ∷ cs) old e w holds small text ok stops fuel =
      let (b, long, holds', run) =
        round (suc n) d xs c old c' w holds (omega arith) text.0 text.1.0 ok.0 ok.1 in
      let xs' = xs ++ (change c ∷ []) in
      let more : length xs' ≡ length xs + 1 = length-append xs (change c ∷ []) in
      let (b', long', holds'', run') =
        copy_while-word (suc n) (read d 1 b) xs' c' cs 0 e (refl, long) holds' (omega arith) text.1
          ok.2 stops (omega arith) in
      let k = length (c' ∷ cs) in
      let counted : length xs' + k ≡ length xs + length (c ∷ c' ∷ cs) = omega arith in
      (
        b',
        long',
        (
          holds''.0,
          holds''.1
              ∙ ap (λ r. r ++ (0 ∷ holds''.0))
                  (sym (append_last xs (change c) (map change (c' ∷ cs)))),
        ),
        run
            ∙ rw (ok.2.0, sym more)
                (run'
                  ∙ ap (λ m. some (m, read (read d 1 b) k b')) counted
                  ∙ ap (λ r. some (length xs + length (c ∷ c' ∷ cs), r)) (read-read d b b' k)),
      )
