-- ===== src/Lexer/Device.antt =====
-- `struct akl_io_device` of src/aklisp.h for a string, and the functions of src/lexer.c on single characters.
use ak_lisp.Base.{
  ℕ, ◌+◌, ◌-◌, ◌/◌, ◌^◌, Bool, true, false, Option, none, some, List, [], get_elem?, set, length,
  replicate, resize, write_bytes, ◌==◌, ltb, leb, if◌then◌else◌,
}
use ak_lisp.Vector.{u32}

pub data Token : Type 0 where
  t_eof t_nil t_atom t_number t_string t_true t_lbrace t_rbrace t_quote : Token

abbrev pub is_t_eof : Token → Bool
is_t_eof t_eof = true
is_t_eof t_nil = false
is_t_eof t_atom = false
is_t_eof t_number = false
is_t_eof t_string = false
is_t_eof t_true = false
is_t_eof t_lbrace = false
is_t_eof t_rbrace = false
is_t_eof t_quote = false

-- `iod_string` holds the bytes of the string and of its NUL. An empty `iod_buffer` is NULL.
pub record Device : Type 0 where
  pub iod_string : List ℕ
  pub iod_pos : ℕ
  pub iod_buffer : List ℕ
  pub iod_buffer_size : ℕ
  pub iod_char_count : ℕ
  pub iod_line_count : ℕ
  pub iod_column : ℕ
  pub iod_backlog : Token

-- `none` is a fault: an access outside the string or the buffer. Where a loop has fuel it is also
-- the want of fuel.
abbrev pub Lex : Type 0 → Type 0
Lex A = Device → Option (A × Device)

abbrev pub pure : {A : Type 0} → A → Lex A
pure a d = some (a, d)

abbrev pub and_then : {A B : Type 0} → Option (A × Device) → (A → Lex B) → Option (B × Device)
and_then none f = none
and_then (some (a, d)) f = f a d

infixl 5 ◌>>=◌ ◌>>◌
abbrev pub ◌>>=◌ : {A B : Type 0} → Lex A → (A → Lex B) → Lex B
m >>= f = λ d. and_then (m d) f

abbrev pub ◌>>◌ : {B : Type 0} → Lex (Unit {0}) → Lex B → Lex B
m >> k = m >>= λ _. k

abbrev pub fault : {A : Type 0} → Lex A
fault d = none

abbrev pub get : Lex Device
get d = some (d, d)

abbrev pub put : Device → Lex (Unit {0})
put e d = some (tt, e)

abbrev pub buffer_size : ℕ
buffer_size = 50

-- `akl_io_getc`
unfoldable pub getc : Lex ℕ
getc d = elim (get_elem? d.iod_string d.iod_pos) [
  | none ↦ none
  | some c ↦
      some (c, record d { iod_char_count = u32 (d.iod_char_count + 1); iod_pos = d.iod_pos + 1 })
]

-- `akl_io_ungetc`, whose result no caller uses. It reads the character that it goes back to.
unfoldable pub ungetc : Lex (Unit {0})
ungetc d = elim (get_elem? d.iod_string (d.iod_pos - 1)) [
  | none ↦ none
  | some c ↦
      if d.iod_pos == 0
      then none
      else some (
        tt,
        record d { iod_char_count = u32 (d.iod_char_count + 2 ^ 32 - 1); iod_pos = d.iod_pos - 1 },
      )
]

-- `akl_io_eof`
unfoldable pub is_eof : Lex Bool
is_eof d = elim (get_elem? d.iod_string d.iod_pos) [ none ↦ none | some c ↦ some (c == 0, d) ]

-- `strcpy` to the buffer
unfoldable pub put_string : List ℕ → Lex (Unit {0})
put_string s d =
    if ltb (length s) (length d.iod_buffer)
    then some (tt, record d { iod_buffer = set (write_bytes d.iod_buffer 0 s) (length s) 0 })
    else none

-- `akl_lex_putback`
pub putback : Token → Lex (Unit {0})
putback tok d = some (tt, record d { iod_backlog = tok })

-- The device of `akl_new_string_device`. The last two fields are what the allocator leaves there.
abbrev pub new_string_device : List ℕ → ℕ → Token → Device
new_string_device s column backlog = record {
  iod_string = s;
  iod_pos = 0;
  iod_buffer = [];
  iod_buffer_size = 0;
  iod_char_count = 0;
  iod_line_count = 1;
  iod_column = column;
  iod_backlog = backlog;
}

-- `junk` is what the allocator leaves in new bytes.
module _ (junk : ℕ) where
  unfoldable pub init_lexer : Lex (Unit {0})
  init_lexer d = some (
    tt,
    record d {
      iod_buffer = replicate buffer_size junk;
      iod_buffer_size = buffer_size;
      iod_backlog = t_eof;
    },
  )

  -- The buffer after it grew by half, if position `pos` and the NUL behind it need that.
  abbrev pub grown : Device → ℕ → Device
  grown d pos =
      let n = u32 (d.iod_buffer_size + d.iod_buffer_size / 2) in
      if leb d.iod_buffer_size (pos + 1)
      then record d { iod_buffer_size = n; iod_buffer = resize junk d.iod_buffer n }
      else d

  unfoldable pub put_buffer : ℕ → ℕ → Lex (Unit {0})
  put_buffer pos ch d =
      let e = grown d pos in
      if ltb (pos + 1) (length e.iod_buffer)
      then some (tt, record e { iod_buffer = set (set e.iod_buffer pos ch) (pos + 1) 0 })
      else none
