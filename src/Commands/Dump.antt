-- ===== src/Commands/Dump.antt =====
-- commands/dump.rs, the naming and the retention of dumps. A directory is the list of its file
-- names; every removal succeeds.
pub mod Retention
pub mod Paths
pub mod Space
pub mod Run
use pg_forge_cli.Base.{
  ℕ, ◌-◌, Bool, not, ◌&&◌, Text, text_lt, codes, List, [], ◌∷◌, ◌++◌, Option, none, some, length,
  take, drop, contains, select, leb, ◌==◌, ◌||◌, if◌then◌else◌,
}
use pg_forge_cli.Base.Lines.{starts_with, reverse_onto}
use pg_forge_cli.Domain.Instance.{is_digit}

abbrev stamp_of : Text → Text
stamp_of compact =
    if leb 14 (length compact)
    then take 8 compact ++ codes "-" ++ take 6 (drop 8 compact)
    else compact

-- `dump_dir.join(..)` of a relative name.
unfoldable pub resolve_dump_path : Option Text → Text → Text → Text → Text
resolve_dump_path (some out) instance dump_dir now_iso = out
resolve_dump_path none instance dump_dir now_iso =
    dump_dir
    ++ codes "/"
    ++ instance
    ++ codes "-"
    ++ stamp_of (select is_digit now_iso)
    ++ codes ".dump"

unfoldable pub is_valid_custom_dump : Text → Bool
is_valid_custom_dump head = starts_with (codes "PGDMP") head

-- `files.sort()`, by inserting one after another.
unfoldable pub insert_sorted : Text → List Text → List Text
insert_sorted x [] = x ∷ []
insert_sorted x (y ∷ ys) =
    let rest = insert_sorted x ys in if text_lt y x then y ∷ rest else x ∷ y ∷ ys

unfoldable pub sort : List Text → List Text
sort [] = []
sort (x ∷ xs) = insert_sorted x (sort xs)

unfoldable pub dumps_to_prune : List Text → ℕ → List Text
dumps_to_prune files n =
    if (n == 0) || leb (length files) n then [] else take (length files - n) (sort files)

unfoldable pub ends_with : Text → Text → Bool
ends_with p s = starts_with (reverse_onto p []) (reverse_onto s [])

-- The filter of `apply_retention`.
unfoldable pub is_dump_of : Text → Text → Bool
is_dump_of instance name =
    starts_with (instance ++ codes "-") name && ends_with (codes ".dump") name

-- The directory afterwards.
unfoldable pub apply_retention : List Text → Text → ℕ → List Text
apply_retention dir instance n =
    let pruned = dumps_to_prune (select (is_dump_of instance) dir) n in
    select (λ name. not (contains pruned name)) dir
