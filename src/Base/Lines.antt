-- ===== src/Base/Lines.antt =====
-- Rust's text functions that the parsers of command output use: `lines`, `trim`, `find`.
use Prim.Native.Nat.{ℕ}
use mathlib.Core.Bool.{Bool, true, false, ◌&&◌, ◌||◌}
use mathlib.Core.List.{List, [], ◌∷◌, ◌++◌}
use mathlib.Core.Option.{Option, none, some}
use pg_forge_cli.Base.Tests.{Text, leb, ◌==◌, if◌then◌else◌}

-- The reverse of the first, in front of the second.
abbrev pub reverse_onto {ℓ} : {A : Type ℓ} → List A → List A → List A
reverse_onto [] ys = ys
reverse_onto (x ∷ xs) ys = reverse_onto xs (x ∷ ys)

-- A `\r` before the `\n`, on the reversed line.
abbrev drop_cr : Text → Text
drop_cr [] = []
drop_cr (c ∷ s) = if c == 13 then s else c ∷ s

abbrev last_line : Text → List Text
last_line [] = []
last_line (c ∷ s) = reverse_onto (c ∷ s) [] ∷ []

-- The lines, with the reversed start of the first.
lines_from : Text → Text → List Text
lines_from [] start = last_line start
lines_from (c ∷ s) start =
    let next = lines_from s [] in
    let same = lines_from s (c ∷ start) in
    if c == 10 then reverse_onto (drop_cr start) [] ∷ next else same

unfoldable pub lines : Text → List Text
unfolding lines_from
lines s = lines_from s []

-- `char::is_whitespace`
abbrev pub is_whitespace : ℕ → Bool
is_whitespace c =
    (leb 9 c && leb c 13)
    || c == 32
    || c == 133
    || c == 160
    || c == 5760
    || (leb 8192 c && leb c 8202)
    || c == 8232
    || c == 8233
    || c == 8239
    || c == 8287
    || c == 12288

unfoldable pub trim_start : Text → Text
trim_start [] = []
trim_start (c ∷ s) = let rest = trim_start s in if is_whitespace c then rest else c ∷ s

unfoldable pub trim : Text → Text
unfolding trim_start
trim s = reverse_onto (trim_start (reverse_onto (trim_start s) [])) []

-- What follows a prefix.
unfoldable pub strip_prefix : Text → Text → Option Text
strip_prefix [] s = some s
strip_prefix (c ∷ p) [] = none
strip_prefix (c ∷ p) (d ∷ s) = let rest = strip_prefix p s in if c == d then rest else none

-- What follows the first occurrence.
unfoldable pub after : Text → Text → Option Text
unfolding strip_prefix
after p [] = strip_prefix p []
after p (c ∷ s) =
    let later = after p s in elim (strip_prefix p (c ∷ s)) [ none ↦ later | some t ↦ some t ]

abbrev is_some {ℓ} : {A : Type ℓ} → Option A → Bool
is_some none = false
is_some (some a) = true

unfoldable pub starts_with : Text → Text → Bool
unfolding strip_prefix
starts_with p s = is_some (strip_prefix p s)

-- `s.contains(p)`
unfoldable pub has_part : Text → Text → Bool
unfolding after
has_part p s = is_some (after p s)

unfoldable pub join : Text → List Text → Text
join sep [] = []
join sep (l ∷ []) = l
join sep (l ∷ m ∷ ls) = l ++ sep ++ join sep (m ∷ ls)

-- Each line with its `\n`.
unfoldable pub unlines : List Text → Text
unlines [] = []
unlines (l ∷ ls) = l ++ 10 ∷ unlines ls

-- `split_once(c)`.
unfoldable pub split_once : ℕ → Text → Option (Text × Text)
split_once c [] = none
split_once c (d ∷ s) =
    let rest = split_once c s in
    if d == c then some ([], s) else elim rest [ none ↦ none | some (a, b) ↦ some (d ∷ a, b) ]
