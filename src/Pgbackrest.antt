-- ===== src/Pgbackrest.antt =====
-- pgbackrest/parse.rs, `parse_backup_label`, and the scans of pgbackrest's output in
-- commands/snapshot.rs.
pub mod Conf
pub mod Pgpass
use pg_forge_cli.Base.{
  ◌+◌, Bool, not, ◌&&◌, ◌||◌, Text, codes, List, [], ◌∷◌, Option, none, some, map, any, leb, select,
  if◌then◌else◌,
}
use pg_forge_cli.Base.Lines.{lines, trim, trim_start, after, starts_with, has_part, join}

abbrev label_of : Option Text → Text
label_of none = []
label_of (some rest) = trim rest

-- The first line with a label that is not empty.
abbrev first_label : List Text → Option Text
first_label [] = none
first_label (l ∷ ls) =
    let later = first_label ls in
    elim (label_of (after (codes "new backup label =") l)) [ [] ↦ later | c ∷ s ↦ some (c ∷ s) ]

unfoldable pub parse_backup_label : Text → Option Text
parse_backup_label stdout = first_label (lines stdout)

abbrev is_error_line : Text → Bool
is_error_line l =
    starts_with (codes "ERROR:") (trim_start l) || starts_with (codes "ABORTED:") (trim_start l)

unfoldable pub pgbackrest_indicates_failure : Text → Bool
pgbackrest_indicates_failure s = any is_error_line (lines s)

-- `to_ascii_lowercase`
abbrev pub ascii_lower : Text → Text
ascii_lower = map (λ c. if leb b'A' c && leb c b'Z' then c + 32 else c)

abbrev pub may_be_secret : Text → Bool
may_be_secret l =
    has_part (codes "repo1-s3-key") (ascii_lower l)
    || has_part (codes "repo1-cipher-pass") (ascii_lower l)
    || has_part (codes "password") (ascii_lower l)

unfoldable pub redact_pgbackrest_output : Text → Text
redact_pgbackrest_output s = join (10 ∷ []) (select (λ l. not (may_be_secret l)) (lines s))
