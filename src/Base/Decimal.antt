-- ===== src/Base/Decimal.antt =====
-- Decimal text of unsigned numbers: `Display`, and `parse::<u8>()`.
use Prim.Native.Nat.{ℕ, zero, suc, ◌+◌, ◌-◌, ◌*◌, ◌/◌, ◌%◌, ◌<◌}
use mathlib.Core.Path.{◌≡◌}
use mathlib.Core.Bool.{◌&&◌}
use mathlib.Core.List.{[], ◌∷◌, ◌++◌}
use mathlib.Core.Option.{Option, none, some}
use native.Mathlib.Omega.{arith}
use pg_forge_cli.Base.Tests.{Text, ltb, leb, ◌==◌, if◌then◌else◌}

unfoldable pub show_u8 : ℕ → Text
show_u8 n =
    if ltb n 10
    then (48 + n) ∷ []
    else if ltb n 100
    then (48 + n / 10) ∷ (48 + n % 10) ∷ []
    else (48 + n / 100) ∷ (48 + n / 10 % 10) ∷ (48 + n % 10) ∷ []

digits : ℕ → ℕ → Text
digits zero n = []
digits (suc k) n =
    let high = digits k (n / 10) in if ltb n 10 then (48 + n) ∷ [] else high ++ (48 + n % 10) ∷ []

-- `Display` of a `u16`
unfoldable pub show_u16 : ℕ → Text
unfolding digits
show_u16 n = digits 5 n

-- `Display` of a `u32`
unfoldable pub show_u32 : ℕ → Text
unfolding digits
show_u32 n = digits 10 n

-- Each digit is checked, and each step for overflow.
read_digits : Text → ℕ → Option ℕ
read_digits [] n = some n
read_digits (c ∷ s) n =
    let rest = read_digits s (n * 10 + (c - 48)) in
    if (leb 48 c && leb c 57) && leb (n * 10 + (c - 48)) 255 then rest else none

-- A sign needs digits behind it.
read_unsigned : Text → Option ℕ
read_unsigned [] = none
read_unsigned (c ∷ s) = read_digits (c ∷ s) 0

unfoldable pub parse_u8 : Text → Option ℕ
unfolding read_digits read_unsigned
parse_u8 [] = none
parse_u8 (c ∷ s) = if c == b'+' then read_unsigned s else read_digits (c ∷ s) 0

-- What is printed is read back.
pub parse_u8-show_u8 : (n : ℕ) → n < 256 → parse_u8 (show_u8 n) ≡ some n
unfolding parse_u8 show_u8
parse_u8-show_u8 n h = ground arith

-- What is read is in range.
read_digits-lt : (s : Text) (n m : ℕ) → n < 256 → read_digits s n ≡ some m → m < 256
unfolding read_digits
read_digits-lt [] n m h e = ground arith
read_digits-lt (c ∷ s) n m h e = ground (arith, read_digits-lt s (n * 10 + (c - 48)) m)

pub parse_u8-lt : (s : Text) (m : ℕ) → parse_u8 s ≡ some m → m < 256
unfolding parse_u8
parse_u8-lt [] m e = cc
parse_u8-lt (c ∷ []) m e = ground (arith, read_digits-lt (c ∷ []) 0 m)
parse_u8-lt (c ∷ d ∷ s) m e =
    ground (arith, read_digits-lt (d ∷ s) 0 m, read_digits-lt (c ∷ d ∷ s) 0 m)
