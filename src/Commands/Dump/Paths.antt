-- ===== src/Commands/Dump/Paths.antt =====
-- The part of std::path that commands/dump.rs uses, of a path with no `/` at its end or twice in a
-- row: `parent`, `file_name`, `with_extension`, `extension`.
pub mod Partial
use pg_forge_cli.Base.{
  ℕ, Bool, not, ◌&&◌, Text, text_eq, codes, [], ◌∷◌, ◌++◌, Option, none, some, ◌==◌, if◌then◌else◌,
}
use pg_forge_cli.Commands.Dump.{ends_with}

-- What stands before the last such character.
unfoldable pub before_last : ℕ → Text → Option Text
before_last c [] = none
before_last c (d ∷ s) =
    let rest = before_last c s in
    elim rest [ none ↦ if d == c then some [] else none | some t ↦ some (d ∷ t) ]

-- What stands behind the last such character, or the whole.
unfoldable pub behind_last : ℕ → Text → Text
unfolding before_last
behind_last c [] = []
behind_last c (d ∷ s) =
    let rest = behind_last c s in
    elim (before_last c s) [ none ↦ if d == c then s else d ∷ s | some t ↦ rest ]

-- The parent, or `.` where there is none or it is empty.
unfoldable pub parent_of : Text → Text
unfolding before_last
parent_of path = elim (before_last 47 path) [
  | none ↦ codes "."
  | some [] ↦ codes "/"
  | some (c ∷ s) ↦ c ∷ s
]

unfoldable pub name_of : Text → Text
unfolding behind_last
name_of path = behind_last 47 path

-- The name without its extension; a dot at its start begins none.
unfoldable pub stem_of : Text → Text
unfolding before_last
stem_of name = elim (before_last 46 name) [ none ↦ name | some [] ↦ name | some (c ∷ s) ↦ c ∷ s ]

-- The path has a file name.
abbrev pub is_file_name : Text → Bool
is_file_name name = not (text_eq name []) && not (text_eq name (codes ".."))

unfoldable pub with_extension : Text → Text → Text
unfolding stem_of
with_extension name extension = if is_file_name name then stem_of name ++ 46 ∷ extension else name

unfoldable pub has_partial_extension : Text → Bool
unfolding ends_with
has_partial_extension name =
    ends_with (codes ".partial") name && not (text_eq name (codes ".partial"))
