-- ===== src/Tests/Listing.antt =====
-- The day of a dump as a date, and the window of two stanzas.
use pg_forge_cli.Base.{◌≡◌, refl, codes, List, [], ◌∷◌, Option, none, some, All, arith}
use pg_forge_cli.Base.Decimal.{show_u32}
use pg_forge_cli.Base.Int.{pos, negsuc, ◌+ℤ◌}
use pg_forge_cli.Commands.Snapshots.{Backup, over_stanzas}
use pg_forge_cli.Commands.Snapshots.Civil.{epoch_to_iso, civil_from_days}
use pg_forge_cli.Commands.Snapshots.Civil.Calendar.{DateOf, civil_from_days-DateOf}
use pg_forge_cli.Commands.Snapshots.Window.{SpansStanza, over_stanzas-Spans}

civil_from_days-DateOf_example : DateOf 740055 (civil_from_days (pos 20587))
unfolding ◌+ℤ◌
civil_from_days-DateOf_example = civil_from_days-DateOf (pos 20587) 740055 refl (omega arith)

a_date : epoch_to_iso (pos 1778751000) ≡ codes "2026-05-14T09:30:00Z"
unfolding epoch_to_iso civil_from_days show_u32
a_date = refl

before_epoch : epoch_to_iso (negsuc 0) ≡ codes "1969-12-31T23:59:59Z"
unfolding epoch_to_iso civil_from_days show_u32
before_epoch = refl

abbrev stanzas : List (Option (List Backup))
stanzas =
    some (
      record { start = some (pos 1715000000); stop = some (pos 1715000300) }
      ∷ record { start = some (pos 1714000000); stop = none }
      ∷ [])
    ∷ none
    ∷ some (record { start = none; stop = some (pos 1716000000) } ∷ [])
    ∷ []

found : over_stanzas stanzas (none, none) ≡ (some (pos 1714000000), some (pos 1716000000))
unfolding over_stanzas
found = refl

over_stanzas-Spans_example :
    All (SpansStanza (some (pos 1714000000), some (pos 1716000000))) stanzas
unfolding over_stanzas
over_stanzas-Spans_example = over_stanzas-Spans stanzas (none, none)
