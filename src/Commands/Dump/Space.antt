-- ===== src/Commands/Dump/Space.antt =====
-- commands/dump.rs, the free space that a dump needs, as `df` prints it.
use pg_forge_cli.Base.{
  ℕ, zero, suc, ◌+◌, ◌-◌, ◌*◌, ◌/◌, ◌&&◌, Text, List, [], ◌∷◌, Option, none, some, ltb, leb, ◌==◌,
  if◌then◌else◌,
}
use pg_forge_cli.Base.Lines.{lines, is_whitespace, reverse_onto}
use pg_forge_cli.Error.{Result, ok, err, anyhow, low_dump_space}

-- `split_whitespace`, with the reversed start of the first word.
abbrev word_onto : Text → List Text → List Text
word_onto [] words = words
word_onto (c ∷ s) words = reverse_onto (c ∷ s) [] ∷ words

unfoldable split_whitespace : Text → Text → List Text
split_whitespace [] start = word_onto start []
split_whitespace (c ∷ s) start =
    let next = split_whitespace s [] in
    let same = split_whitespace s (c ∷ start) in
    if is_whitespace c then word_onto start next else same

abbrev nth {ℓ} : {A : Type ℓ} → ℕ → List A → Option A
nth n [] = none
nth zero (x ∷ xs) = some x
nth (suc n) (x ∷ xs) = nth n xs

-- `parse::<u64>()`, the digits read so far in `n`.
unfoldable read_u64 : Text → ℕ → Option ℕ
read_u64 [] n = some n
read_u64 (c ∷ s) n =
    let rest = read_u64 s (n * 10 + (c - 48)) in
    if (leb 48 c && leb c 57) && leb (n * 10 + (c - 48)) 18446744073709551615 then rest else none

abbrev digits_u64 : Text → Option ℕ
digits_u64 [] = none
digits_u64 (c ∷ s) = read_u64 (c ∷ s) 0

unfoldable parse_u64 : Text → Option ℕ
unfolding read_u64
parse_u64 [] = none
parse_u64 (c ∷ s) = if c == 43 then digits_u64 s else digits_u64 (c ∷ s)

unfoldable pub parse_df_available_kb : Text → Option ℕ
unfolding split_whitespace parse_u64
parse_df_available_kb df_output = elim (nth 1 (lines df_output)) [
  | none ↦ none
  | some data_line ↦ elim (nth 3 (split_whitespace data_line [])) [
    | none ↦ none
    | some available ↦ parse_u64 available
  ]
]

abbrev pub min_free_kb : ℕ
min_free_kb = 5 * 1024 * 1024

abbrev pub check_space : Option ℕ → Result (Unit {0})
check_space none = ok tt
check_space (some avail) =
    if ltb avail min_free_kb then err (anyhow (low_dump_space (avail / 1024))) else ok tt
