-- ===== src/Postgres/InitSql.antt =====
-- postgres/init_sql.rs: the roles that the first start creates, with the password as a literal.
pub mod Quoting
use pg_forge_cli.Base.{Text, codes, List, [], ◌∷◌, ◌++◌, ◌==◌, if◌then◌else◌}
use pg_forge_cli.Base.Lines.{unlines}

-- `replace('\'', "''")`
unfoldable pub double_quotes : Text → Text
double_quotes [] = []
double_quotes (c ∷ s) = let rest = double_quotes s in if c == 39 then 39 ∷ 39 ∷ rest else c ∷ rest

abbrev sql_lines : Text → List Text
sql_lines escaped =
    codes "-- Generated by pgforge — runs once on first cluster init."
    ∷ (codes "CREATE ROLE pgbackrest WITH LOGIN REPLICATION SUPERUSER PASSWORD '"
        ++ escaped
        ++ codes "';")
    ∷ (codes "CREATE ROLE pgreplica  WITH LOGIN REPLICATION PASSWORD '" ++ escaped ++ codes "';")
    ∷ []

unfoldable pub generate_init_sql : Text → Text
unfolding double_quotes
generate_init_sql replication_password = unlines (sql_lines (double_quotes replication_password))
