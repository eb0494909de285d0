-- ===== src/Lexer/Chars.antt =====
-- The character tests that src/lexer.c takes from <ctype.h>, in the C locale, and its own tests.
-- A character is its byte; a byte above 127 is in no class.
use mathlib.Core.Option
use ak_lisp.Base.{
  ℕ, ◌+◌, Bool, true, false, not, ◌&&◌, ◌||◌, Option, none, some, List, [], ◌∷◌, ◌==◌, leb,
  if◌then◌else◌,
}

abbrev pub is_digit : ℕ → Bool
is_digit c = leb 48 c && leb c 57

abbrev pub is_upper : ℕ → Bool
is_upper c = leb 65 c && leb c 90

abbrev pub is_lower : ℕ → Bool
is_lower c = leb 97 c && leb c 122

abbrev pub is_alpha : ℕ → Bool
is_alpha c = is_upper c || is_lower c

abbrev pub is_punct : ℕ → Bool
is_punct c =
    (leb 33 c && leb c 47)
    || (leb 58 c && leb c 64)
    || (leb 91 c && leb c 96)
    || (leb 123 c && leb c 126)

abbrev pub to_lower : ℕ → ℕ
to_lower c = if is_upper c then c + 32 else c

-- digits, `e`, `+`, `-`, `x`, `.`, and `a` to `d` and `f`, in either case
abbrev pub is_valid_in_number : ℕ → Bool
is_valid_in_number c =
    is_digit c
    || (leb 97 (to_lower c) && leb (to_lower c) 102)
    || (to_lower c == 43)
    || (to_lower c == 45)
    || (to_lower c == 120)
    || (to_lower c == 46)

-- what ends an atom: a space, a brace or a new line
abbrev pub is_in_atom : ℕ → Bool
is_in_atom c = not (c == 32) && not (c == 40) && not (c == 41) && not (c == 10)

abbrev pub is_in_word : ℕ → Bool
is_in_word c = not (c == 32) && not (c == 58) && not (c == 10)

-- The characters of a buffer before its NUL; `none` if there is no NUL.
abbrev pub c_string : List ℕ → Option (List ℕ)
c_string [] = none
c_string (c ∷ cs) = if c == 0 then some [] else Option.map (λ s. c ∷ s) (c_string cs)

-- `strcasecmp` gives 0
abbrev pub same_word : List ℕ → List ℕ → Bool
same_word [] [] = true
same_word [] (b ∷ ys) = false
same_word (a ∷ xs) [] = false
same_word (a ∷ xs) (b ∷ ys) = (to_lower a == to_lower b) && same_word xs ys
