-- ===== src/Tui/TextField/Zipper.antt =====
-- A text field is a zipper: the characters left of the cursor, nearest first, and those right of
-- it. On a field that comes from a zipper no operation panics, and each moves or edits one
-- character, of however many bytes.
use mathlib.Core.List.{reverse, reverse-cons, append_assoc, append-nil}
use pg_forge_cli.Base.{
  ℕ, zero, suc, ◌+◌, ◌-◌, ◌≤◌, ◌<◌, ◌≡◌, refl, ◌∙◌, ap, sym, Text, List, [], ◌∷◌, ◌++◌, Option,
  some, arith, true, leb,
}
use pg_forge_cli.Tui.TextField.{
  TextField, len_utf8, byte_len, split_bytes, unsnoc, insert_char, backspace, move_left, move_right,
  ◌>>=◌,
}

pub data Edit : Type 0 where
  insert : ℕ → Edit
  delete left right : Edit

unfoldable pub edit : Edit → TextField → Option TextField
edit (insert c) = insert_char c
edit delete = backspace
edit left = move_left
edit right = move_right

abbrev pub Zipper : Type 0
Zipper = Text × Text

unfoldable pub edit_zipper : Edit → Zipper → Zipper
edit_zipper (insert c) (a, b) = (c ∷ a, b)
edit_zipper delete ([], b) = ([], b)
edit_zipper delete (c ∷ a, b) = (a, b)
edit_zipper left ([], b) = ([], b)
edit_zipper left (c ∷ a, b) = (a, c ∷ b)
edit_zipper right (a, []) = (a, [])
edit_zipper right (a, c ∷ b) = (c ∷ a, b)

-- The field whose cursor stands between the two sides.
unfoldable pub field : Zipper → TextField
unfolding byte_len
field (a, b) = record { buf = reverse a ++ b; cursor = byte_len (reverse a) }

len_utf8-pos : (c : ℕ) → 0 < len_utf8 c
unfolding len_utf8
len_utf8-pos c = ground arith

byte_len-append : (s t : Text) → byte_len (s ++ t) ≡ byte_len s + byte_len t
unfolding byte_len
byte_len-append [] t = omega arith
byte_len-append (c ∷ s) t = omega (arith, byte_len-append s t)

split_bytes-cons :
    (k c n : ℕ) (s a b : Text)
    → k ≡ len_utf8 c + n
    → split_bytes n s ≡ some (a, b)
    → split_bytes k (c ∷ s) ≡ some (c ∷ a, b)
unfolding split_bytes
split_bytes-cons zero c n s a b e h = absurd (omega (arith, len_utf8-pos c))
split_bytes-cons (suc k) c n s a b e h =
    let rest : suc k - len_utf8 c ≡ n = omega arith in
    let fits : len_utf8 c ≤ suc k = omega arith in
    ground (arith, ap (λ (m : ℕ). split_bytes m s) rest)

split_bytes_lem : (a b : Text) → split_bytes (byte_len a) (a ++ b) ≡ some (a, b)
unfolding byte_len
split_bytes_lem [] b = unfold split_bytes in refl
split_bytes_lem (c ∷ a) b =
    split_bytes-cons _ c (byte_len a) (a ++ b) a b refl (split_bytes_lem a b)

unsnoc-append : (s : Text) (c : ℕ) → unsnoc (s ++ c ∷ []) ≡ some (s, c)
unfolding unsnoc
unsnoc-append [] c = refl
unsnoc-append (d ∷ []) c = refl
unsnoc-append (d ∷ e ∷ s) c = ground (arith, unsnoc-append (e ∷ s) c)

-- The two sides of the cursor, of a field that comes from a zipper.
split_bytes-field :
    (z : Zipper) → split_bytes (field z).cursor (field z).buf ≡ some (reverse z.0, z.1)
unfolding field
split_bytes-field (a, b) = split_bytes_lem (reverse a) b

-- The cursor of a field with a character on its left.
cursor_lem : (c : ℕ) (a b : Text) → (field (c ∷ a, b)).cursor ≡ byte_len (reverse a) + len_utf8 c
unfolding field
cursor_lem c a b =
    ap byte_len (reverse-cons c a) ∙ byte_len-append (reverse a) (c ∷ []) ∙ omega arith

buf_lem : (c : ℕ) (a b : Text) → (field (c ∷ a, b)).buf ≡ reverse a ++ c ∷ b
unfolding field
buf_lem c a b = rw (reverse-cons, append_assoc)

insert_char_lem :
    (c : ℕ) (t : TextField) (p q : Text)
    → split_bytes t.cursor t.buf ≡ some (p, q)
    → insert_char c t ≡ some (record { buf = p ++ c ∷ q; cursor = t.cursor + len_utf8 c })
unfolding insert_char
insert_char_lem c t p q h = rw h

module _ (t : TextField) (p q : Text) (z : ℕ)
    (h : split_bytes t.cursor t.buf ≡ some (p ++ z ∷ [], q)) where
  module _ (inside : 0 < t.cursor) where
    backspace_lem : backspace t ≡ some (record { buf = p ++ q; cursor = t.cursor - len_utf8 z })
    unfolding backspace
    backspace_lem = ground (arith, unsnoc-append p z)

    move_left_lem : move_left t ≡ some (record { buf = t.buf; cursor = t.cursor - len_utf8 z })
    unfolding move_left
    move_left_lem = ground (arith, unsnoc-append p z)

move_right_lem :
    (t : TextField) (p q : Text) (z : ℕ)
    → split_bytes t.cursor t.buf ≡ some (p, z ∷ q)
    → t.cursor < byte_len t.buf
    → move_right t ≡ some (record { buf = t.buf; cursor = t.cursor + len_utf8 z })
unfolding move_right
move_right_lem t p q z h inside = ground arith

module _ (c : ℕ) (a b : Text) where
  sides :
      split_bytes (field (c ∷ a, b)).cursor (field (c ∷ a, b)).buf ≡ some (reverse a ++ c ∷ [], b)
  sides = rw (← reverse-cons) (split_bytes-field (c ∷ a, b))

  inside : 0 < (field (c ∷ a, b)).cursor
  inside = omega (arith, cursor_lem c a b, len_utf8-pos c)

  cursor-sub : (field (c ∷ a, b)).cursor - len_utf8 c ≡ byte_len (reverse a)
  cursor-sub = omega (arith, cursor_lem c a b)

  insert_char-field : insert_char c (field (a, b)) ≡ some (field (c ∷ a, b))
  insert_char-field =
      insert_char_lem c (field (a, b)) (reverse a) b (split_bytes-field (a, b))
      ∙ ap some (λ i. record { buf = sym (buf_lem c a b) i; cursor = counted i })
    where
      counted : (field (a, b)).cursor + len_utf8 c ≡ (field (c ∷ a, b)).cursor
      counted = unfold field in sym (cursor_lem c a b)

  backspace-field : backspace (field (c ∷ a, b)) ≡ some (field (a, b))
  unfolding field
  backspace-field =
      backspace_lem (field (c ∷ a, b)) (reverse a) b c sides inside
      ∙ ap some (λ i. record { buf = reverse a ++ b; cursor = cursor-sub i })

  move_left-field : move_left (field (c ∷ a, b)) ≡ some (field (a, c ∷ b))
  unfolding field
  move_left-field =
      move_left_lem (field (c ∷ a, b)) (reverse a) b c sides inside
      ∙ ap some (λ i. record { buf = buf_lem c a b i; cursor = cursor-sub i })

  -- The cursor stands before a character.
  short : (field (a, c ∷ b)).cursor < byte_len (field (a, c ∷ b)).buf
  unfolding field byte_len
  short = omega (arith, byte_len-append (reverse a) (c ∷ b), len_utf8-pos c)

  move_right-field : move_right (field (a, c ∷ b)) ≡ some (field (c ∷ a, b))
  unfolding field
  move_right-field =
      move_right_lem (field (a, c ∷ b)) (reverse a) b c (split_bytes-field (a, c ∷ b)) short
      ∙ ap some (λ i. record { buf = sym (buf_lem c a b) i; cursor = sym (cursor_lem c a b) i })

move_right_stays : (t : TextField) → leb (byte_len t.buf) t.cursor ≡ true → move_right t ≡ some t
unfolding move_right
move_right_stays t h = rw h

move_right_end : (a : Text) → move_right (field (a, [])) ≡ some (field (a, []))
move_right_end a = move_right_stays (field (a, [])) (unfold field in rw append-nil (ground arith))

-- Each operation on the field is the one on the zipper, and does not panic.
pub edit-field : (e : Edit) (z : Zipper) → edit e (field z) ≡ some (field (edit_zipper e z))
unfolding edit edit_zipper
edit-field (insert c) (a, b) = insert_char-field c a b
edit-field delete ([], b) = unfold field backspace in refl
edit-field delete (c ∷ a, b) = backspace-field c a b
edit-field left ([], b) = unfold field move_left in refl
edit-field left (c ∷ a, b) = move_left-field c a b
edit-field right (a, []) = move_right_end a
edit-field right (a, c ∷ b) = move_right-field c a b

-- Edits one after another, from a field; `none` is a panic.
unfoldable pub edit_all : List Edit → TextField → Option TextField
edit_all [] t = some t
edit_all (e ∷ es) t = edit e t >>= edit_all es

unfoldable pub edit_all_zipper : List Edit → Zipper → Zipper
edit_all_zipper [] z = z
edit_all_zipper (e ∷ es) z = edit_all_zipper es (edit_zipper e z)

-- Any edits, from any cursor between two characters, in texts of any characters, never panic, and
-- leave the field that the zipper says.
pub edit_all-field :
    (es : List Edit) (z : Zipper) → edit_all es (field z) ≡ some (field (edit_all_zipper es z))
unfolding edit_all edit_all_zipper
edit_all-field [] z = refl
edit_all-field (e ∷ es) z = rw (edit-field e z) (edit_all-field es (edit_zipper e z))
