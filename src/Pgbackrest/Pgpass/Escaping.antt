-- ===== src/Pgbackrest/Pgpass/Escaping.antt =====
-- libpq's reading of a field gives the password back.
use pg_forge_cli.Base.{
  Bool, true, false, Text, codes, [], ◌∷◌, ◌++◌, ◌==◌, ◌||◌, ◌≡◌, refl, ap, if◌then◌else◌, arith,
}
use pg_forge_cli.Pgbackrest.Pgpass.{escaped, generate_pgpass}

-- A field up to its end, which is a colon or a line feed without a backslash before it; a
-- backslash stands for the character behind it, and `behind` says that one stands before.
unfoldable pub read_field : Bool → Text → Text
read_field behind [] = []
read_field true (c ∷ s) = c ∷ read_field false s
read_field false (c ∷ s) =
    let plain = read_field false s in
    let masked = read_field true s in
    if c == 58 || c == 10 then [] else if c == 92 then masked else c ∷ plain

-- What follows the field's colon; `behind` says that a backslash stands before.
unfoldable drop_field : Bool → Text → Text
drop_field behind [] = []
drop_field true (c ∷ s) = drop_field false s
drop_field false (c ∷ s) = let rest = drop_field (c == 92) s in if c == 58 then s else rest

-- The password is the fifth field, behind the user.
unfoldable pub read_line : Text → Text × Text
unfolding drop_field read_field
read_line line =
    let user = drop_field false (drop_field false (drop_field false line)) in
    (read_field false user, read_field false (drop_field false user))

-- No line feed and no carriage return.
abbrev pub HasNoBreak : Text → Type 0
HasNoBreak [] = Unit
HasNoBreak (c ∷ s) = (((c == 10) ≡ false) × ((c == 13) ≡ false)) × HasNoBreak s

read_field-escaped : (s : Text) → HasNoBreak s → read_field false (escaped s ++ 10 ∷ []) ≡ s
unfolding read_field escaped
read_field-escaped [] h = refl
read_field-escaped (c ∷ s) h = ground (arith, h, read_field-escaped s h.1)

-- The line that is generated for a password without line breaks reads as the user pgreplica with
-- this password.
pub read_line-generate_pgpass :
    (password : Text)
    → HasNoBreak password
    → read_line (generate_pgpass password) ≡ (codes "pgreplica", password)
unfolding read_line generate_pgpass drop_field read_field
read_line-generate_pgpass password h =
    ap (λ p. (codes "pgreplica", p)) (read_field-escaped password h)
