-- ===== src/Pgbackrest/Pgpass.antt =====
-- pgbackrest/pgpass.rs: the text of .pgpass, with the separators in the password escaped.
pub mod Escaping
use pg_forge_cli.Base.{Text, codes, [], ◌∷◌, ◌++◌, ◌==◌, ◌||◌, if◌then◌else◌}

-- A backslash before each backslash and each colon
unfoldable pub escaped : Text → Text
escaped [] = []
escaped (c ∷ s) = let rest = escaped s in if c == 92 || c == 58 then 92 ∷ c ∷ rest else c ∷ rest

unfoldable pub generate_pgpass : Text → Text
unfolding escaped
generate_pgpass replication_password =
    codes "*:*:*:pgreplica:" ++ escaped replication_password ++ codes "\n"
