-- ===== src/Domain/Instance/Names.antt =====
-- A valid instance name has none of the characters that the encodings separate by.
use pg_forge_cli.Base.{ℕ, ◌≡◌, true, false, Text, [], ◌∷◌, all, Lacks, arith}
use pg_forge_cli.Domain.Instance.{is_valid_name, is_name_char}

Lacks-of_all : (c : ℕ) (s : Text) → is_name_char c ≡ false → all is_name_char s ≡ true → Lacks c s
unfolding all
Lacks-of_all c [] odd h = tt
Lacks-of_all c (d ∷ s) odd h = ground (arith, Lacks-of_all c s odd)

pub Lacks-of_is_valid_name :
    (c : ℕ) (name : Text) → is_name_char c ≡ false → is_valid_name name ≡ true → Lacks c name
unfolding is_valid_name
Lacks-of_is_valid_name c [] odd h = tt
Lacks-of_is_valid_name c (d ∷ s) odd h = (ground arith, Lacks-of_all c s odd (ground arith))
