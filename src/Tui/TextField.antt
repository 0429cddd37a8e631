-- ===== src/Tui/TextField.antt =====
-- tui/events.rs, `TextField`: a text with a cursor that counts bytes of UTF-8.
pub mod Zipper
use pg_forge_cli.Base.{ℕ, zero, suc, ◌+◌, ◌-◌, Text, [], ◌∷◌, ◌++◌, Option, none, some, ltb, leb}
use pg_forge_cli.Base.{◌==◌, if◌then◌else◌}

pub record TextField : Type 0 where
  pub buf : Text
  pub cursor : ℕ

abbrev pub empty_field : TextField
empty_field = record { buf = []; cursor = 0 }

unfoldable pub len_utf8 : ℕ → ℕ
len_utf8 c = if ltb c 0x80 then 1 else if ltb c 0x800 then 2 else if ltb c 0x10000 then 3 else 4

unfoldable pub byte_len : Text → ℕ
byte_len [] = 0
byte_len (c ∷ s) = len_utf8 c + byte_len s

infixl 10 ◌>>=◌
abbrev ◌>>=◌ : {A B : Type 0} → Option A → (A → Option B) → Option B
none >>= f = none
some a >>= f = f a

-- The two sides of a byte offset. `none` is a panic: the offset is not on a boundary of the text.
split_bytes : ℕ → Text → Option (Text × Text)
split_bytes zero s = some ([], s)
split_bytes (suc n) [] = none
split_bytes (suc n) (c ∷ s) =
    let rest = split_bytes (suc n - len_utf8 c) s in
    if leb (len_utf8 c) (suc n)
    then elim rest [ none ↦ none | some (a, b) ↦ some (c ∷ a, b) ]
    else none

-- A text's last character, behind the others; `none` is the panic of `unwrap`.
unsnoc : Text → Option (Text × ℕ)
unsnoc [] = none
unsnoc (c ∷ []) = some ([], c)
unsnoc (c ∷ d ∷ s) = elim (unsnoc (d ∷ s)) [ none ↦ none | some (a, z) ↦ some (c ∷ a, z) ]

uncons : Text → Option (ℕ × Text)
uncons [] = none
uncons (c ∷ s) = some (c, s)

unfoldable pub insert_char : ℕ → TextField → Option TextField
unfolding split_bytes
insert_char c t = do
  sides ← split_bytes t.cursor t.buf
  some (record { buf = sides.0 ++ c ∷ sides.1; cursor = t.cursor + len_utf8 c })

unfoldable pub backspace : TextField → Option TextField
unfolding split_bytes unsnoc
backspace t = if t.cursor == 0 then some t else do
  sides ← split_bytes t.cursor t.buf
  last ← unsnoc sides.0
  some (record { buf = last.0 ++ sides.1; cursor = t.cursor - len_utf8 last.1 })

unfoldable pub move_left : TextField → Option TextField
unfolding split_bytes unsnoc
move_left t = if t.cursor == 0 then some t else do
  sides ← split_bytes t.cursor t.buf
  last ← unsnoc sides.0
  some (record { buf = t.buf; cursor = t.cursor - len_utf8 last.1 })

unfoldable pub move_right : TextField → Option TextField
unfolding split_bytes uncons
move_right t = if leb (byte_len t.buf) t.cursor then some t else do
  sides ← split_bytes t.cursor t.buf
  next ← uncons sides.1
  some (record { buf = t.buf; cursor = t.cursor + len_utf8 next.0 })
