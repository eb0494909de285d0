-- ===== src/Lexer/Tokens/Tests.antt =====
-- Devices on concrete strings, runs of `akl_lex` on them, and its theorems at them.
use ak_lisp.Base.{ℕ, ◌≤◌, ◌≡◌, inr, refl, some, List, [], ◌∷◌, arith, length, replicate}
use ak_lisp.Lexer.Chars.{c_string}
use ak_lisp.Lexer.Device.{t_eof, t_atom, Device, new_string_device, put_buffer}
use ak_lisp.Lexer.Words.Buffer.{Holds, put_buffer-Holds}
use ak_lisp.Lexer.Words.Copied.{read}
use ak_lisp.Lexer.Tokens.{lex}
use ak_lisp.Lexer.Tokens.Atoms.{IsReady}
use ak_lisp.Lexer.Tokens.Words.{spaced, lex-atom}

-- A device that has its buffer, at the start of a string.
abbrev on : List ℕ → Device
on s = record (new_string_device s 0 t_eof) { iod_buffer = replicate 50 7; iod_buffer_size = 50 }

on-IsReady : (s : List ℕ) → IsReady (on s)
on-IsReady s = record { sized = (refl, omega arith); backlog = refl; counted = omega arith }

-- two spaces, `Ab` and an opening brace
abbrev atom_text : List ℕ
atom_text = 32 ∷ 32 ∷ 65 ∷ 98 ∷ 40 ∷ 0 ∷ []

-- a space, `42` and a closing brace
abbrev number_text : List ℕ
number_text = 32 ∷ 52 ∷ 50 ∷ 41 ∷ 0 ∷ []

put_buffer-Holds_example :
    (b : List ℕ) × (put_buffer 0 0 65 (on atom_text)
      ≡ some (tt, record (on atom_text) { iod_buffer = b; iod_buffer_size = length b }))
    × (2 ≤ length b)
    × Holds b (65 ∷ []) 0
put_buffer-Holds_example =
    put_buffer-Holds 0 (on atom_text) [] 7 65 (replicate 49 7, refl) refl (omega arith)
      (omega arith)

lex-atom_example :
    (b : List ℕ) × (2 ≤ length b)
    × (c_string b ≡ some (97 ∷ 98 ∷ []))
    × (lex 0 10 (on atom_text) ≡ some (t_atom, read (spaced 2 (on atom_text)) 2 b))
lex-atom_example =
    lex-atom 0 2 7 (on atom_text) 65 (98 ∷ []) 40 (on-IsReady atom_text)
      (refl, refl, refl, refl, refl, refl, refl, refl, refl, refl, refl, refl)
      (refl, (refl, (refl, (refl, (refl, tt))))) (refl, refl, (refl, refl, tt)) (inr (refl, refl))
      (omega arith) (omega arith)

abbrev sign_text : List ℕ
sign_text = 43 ∷ 0 ∷ []

-- `+(f`
abbrev brace_text : List ℕ
brace_text = 43 ∷ 40 ∷ 102 ∷ 0 ∷ []
