-- ===== src/Commands/Snapshots/Window.antt =====
-- The window spans the backups of all stanzas.
use pg_forge_cli.Base.{List, [], ◌∷◌, Option, none, some, All, arith}
use pg_forge_cli.Base.Int.{ℤ, ◌≤ℤ◌}
use pg_forge_cli.Commands.Snapshots.{Backup, Range, smallest, largest, over_backups, over_stanzas}

-- A bound is there and no later than the timestamp, if there is one.
abbrev pub NoLater : Option ℤ → Option ℤ → Type 0
NoLater o none = Unit
NoLater none (some m) = ⊥
NoLater (some n) (some m) = n ≤ℤ m

abbrev pub NoEarlier : Option ℤ → Option ℤ → Type 0
NoEarlier o none = Unit
NoEarlier none (some m) = ⊥
NoEarlier (some n) (some m) = m ≤ℤ n

abbrev pub Spans : Range → Backup → Type 0
Spans r b = NoLater r.0 b.start × NoEarlier r.1 b.stop

abbrev pub SpansStanza : Range → Option (List Backup) → Type 0
SpansStanza r none = Unit
SpansStanza r (some backups) = All (Spans r) backups

≤ℤ_refl : (n : ℤ) → n ≤ℤ n
≤ℤ_refl n = omega arith

-- The timestamp that joins, and one that was there.
smallest-new : (cur start : Option ℤ) → NoLater (smallest cur start) start
unfolding smallest
smallest-new cur none = tt
smallest-new none (some m) = ≤ℤ_refl m
smallest-new (some n) (some m) = ground arith

smallest-old : (cur start s : Option ℤ) → NoLater cur s → NoLater (smallest cur start) s
unfolding smallest
smallest-old cur start none h = tt
smallest-old cur none (some k) h = h
smallest-old (some n) (some m) (some k) h = ground (arith, h)
smallest-old none (some m) (some k) h = elim h [ ]

largest-new : (cur stop : Option ℤ) → NoEarlier (largest cur stop) stop
unfolding largest
largest-new cur none = tt
largest-new none (some m) = ≤ℤ_refl m
largest-new (some n) (some m) = ground arith

largest-old : (cur stop s : Option ℤ) → NoEarlier cur s → NoEarlier (largest cur stop) s
unfolding largest
largest-old cur stop none h = tt
largest-old cur none (some k) h = h
largest-old (some n) (some m) (some k) h = ground (arith, h)
largest-old none (some m) (some k) h = elim h [ ]

over_backups-old :
    (bs : List Backup) (r : Range) (b : Backup) → Spans r b → Spans (over_backups bs r) b
unfolding over_backups
over_backups-old [] r b h = h
over_backups-old (c ∷ bs) r b (h, k) =
    over_backups-old bs _ b (smallest-old r.0 c.start b.start h, largest-old r.1 c.stop b.stop k)

over_stanzas-old :
    (stanzas : List (Option (List Backup))) (r : Range) (b : Backup)
    → Spans r b
    → Spans (over_stanzas stanzas r) b
unfolding over_stanzas
over_stanzas-old [] r b h = h
over_stanzas-old (none ∷ stanzas) r b h = over_stanzas-old stanzas r b h
over_stanzas-old (some bs ∷ stanzas) r b h =
    over_stanzas-old stanzas (over_backups bs r) b (over_backups-old bs r b h)

over_backups-Spans :
    (stanzas : List (Option (List Backup))) (bs : List Backup) (r : Range)
    → All (Spans (over_stanzas stanzas (over_backups bs r))) bs
unfolding over_backups
over_backups-Spans stanzas [] r = tt
over_backups-Spans stanzas (b ∷ bs) r = (
  over_stanzas-old stanzas _ b
      (over_backups-old bs _ b (smallest-new r.0 b.start, largest-new r.1 b.stop)),
  over_backups-Spans stanzas bs _,
)

-- Every start of a backup of any stanza is no earlier, and every stop no later, than the range found.
pub over_stanzas-Spans :
    (stanzas : List (Option (List Backup))) (r : Range)
    → All (SpansStanza (over_stanzas stanzas r)) stanzas
unfolding over_stanzas
over_stanzas-Spans [] r = tt
over_stanzas-Spans (none ∷ stanzas) r = (tt, over_stanzas-Spans stanzas r)
over_stanzas-Spans (some bs ∷ stanzas) r =
    (over_backups-Spans stanzas bs r, over_stanzas-Spans stanzas (over_backups bs r))
