-- ===== src/Postgres/InitSql/Quoting.antt =====
-- The password cannot leave its literal.
use pg_forge_cli.Base.{
  ℕ, false, Text, codes, [], ◌∷◌, ◌++◌, Option, none, some, ◌==◌, ◌≡◌, refl, ap, ◌∙◌, if◌then◌else◌,
  arith,
}
use pg_forge_cli.Base.Lines.{unlines, after, strip_prefix}
use pg_forge_cli.Postgres.InitSql.{double_quotes, generate_init_sql}

abbrev with_first : ℕ → Option (Text × Text) → Option (Text × Text)
with_first c none = none
with_first c (some (value, rest)) = some (c ∷ value, rest)

-- The value of a literal, from behind its opening quote, and what follows its closing quote, as
-- SQL reads a string constant: two quotes stand for one, one alone ends it.
unfoldable pub read_literal : Text → Option (Text × Text)
read_literal [] = none
read_literal (c ∷ []) = if c == 39 then some ([], []) else none
read_literal (c ∷ d ∷ s) =
    let behind = read_literal s in
    let rest = read_literal (d ∷ s) in
    if c == 39
    then (if d == 39 then with_first 39 behind else some ([], d ∷ s))
    else with_first c rest

-- The literal of a text ends at its closing quote, if no quote follows that one, and has the text as
-- its value.
read_literal-double_quotes :
    (s : Text) (d : ℕ) (rest : Text)
    → (d == 39) ≡ false
    → read_literal (double_quotes s ++ 39 ∷ d ∷ rest) ≡ some (s, d ∷ rest)
unfolding read_literal double_quotes
read_literal-double_quotes [] d rest h = ground (arith, h)
read_literal-double_quotes (c ∷ s) d rest h =
    ground (arith, h, read_literal-double_quotes s d rest h)

statement_end : (s rest : Text) → (s ++ codes "';") ++ rest ≡ s ++ 39 ∷ 59 ∷ rest
statement_end [] rest = refl
statement_end (c ∷ s) rest = ap (λ t. c ∷ t) (statement_end s rest)

-- The same in a line of the script.
read_literal-line :
    (s rest : Text) → read_literal ((double_quotes s ++ codes "';") ++ rest) ≡ some (s, 59 ∷ rest)
read_literal-line s rest =
    ap read_literal (statement_end (double_quotes s) rest)
    ∙ read_literal-double_quotes s 59 rest refl

-- The value of the next literal behind `PASSWORD`, and what follows it.
abbrev pub next_password : Text → Option (Text × Text)
next_password sql = elim (after (codes "PASSWORD '") sql) [ none ↦ none | some s ↦ read_literal s ]

-- The passwords of the two roles, each as SQL reads its literal, and what follows the second: the
-- second is looked for behind the end of the first.
abbrev with_second : Text → Option (Text × Text) → Option (Text × (Text × Text))
with_second first none = none
with_second first (some rest) = some (first, rest)

abbrev and_second : Option (Text × Text) → Option (Text × (Text × Text))
and_second none = none
and_second (some (first, rest)) = with_second first (next_password rest)

unfoldable pub read_passwords : Text → Option (Text × (Text × Text))
read_passwords sql = and_second (next_password sql)

abbrev behind_first : Text → Text
behind_first password =
    59
    ∷ 10
    ∷ (((codes "CREATE ROLE pgreplica  WITH LOGIN REPLICATION PASSWORD '" ++ double_quotes password)
          ++ codes "';")
        ++ 10 ∷ [])

first_password :
    (password : Text)
    → next_password (generate_init_sql password) ≡ some (password, behind_first password)
unfolding generate_init_sql unlines after strip_prefix
first_password password = read_literal-line password _

second_password :
    (password : Text) → next_password (behind_first password) ≡ some (password, codes ";\n")
unfolding after strip_prefix
second_password password = read_literal-line password (10 ∷ [])

-- Whatever the password is, the script that creates the two roles reads as SQL that gives each of
-- them this password, with nothing but the end of the statement behind the second.
pub read_passwords-generate_init_sql :
    (password : Text)
    → read_passwords (generate_init_sql password) ≡ some (password, (password, codes ";\n"))
unfolding read_passwords
read_passwords-generate_init_sql password =
    ap and_second (first_password password) ∙ ap (with_second password) (second_password password)
