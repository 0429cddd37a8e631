-- ===== src/Smart/Worst.antt =====
-- Which drive the aggregate reports.
use pg_forge_cli.Base.{
  ◌≤◌, ◌≡◌, refl, ◌⊎◌, inl, inr, Bool, true, false, List, [], ◌∷◌, none, some, All, all, leb, arith,
  if◌then◌else◌,
}
use pg_forge_cli.Base.Int.{ℤ}
use pg_forge_cli.Smart.Types.{
  SmartStatus, unknown, rank, DriveSmart, SmartHealth, worst_from, is_unknown, report, aggregate,
}

-- A drive of the list.
abbrev pub OneOf : DriveSmart → List DriveSmart → Type 0
OneOf w [] = ⊥
OneOf w (d ∷ ds) = (w ≡ d) ⊎ OneOf w ds

abbrev AtMost : DriveSmart → List DriveSmart → Type 0
AtMost w ds = All (λ d. rank d.status ≤ rank w.status) ds

abbrev IsWorstOf : DriveSmart → List DriveSmart → Type 0
IsWorstOf w ds = OneOf w ds × AtMost w ds

pick_worse :
    (best d : DriveSmart) (ds : List DriveSmart) (b : Bool)
    → leb (rank best.status) (rank d.status) ≡ b
    → IsWorstOf (worst_from d ds) (d ∷ ds)
    → IsWorstOf (worst_from best ds) (best ∷ ds)
    → IsWorstOf (worst_from (if b then d else best) ds) (best ∷ d ∷ ds)
pick_worse best d ds true e (among, (first, rest)) other =
    (inr among, (ground (arith, e, first), (first, rest)))
pick_worse best d ds false e other (among, (first, rest)) = (
  elim among [ inl same ↦ inl same | inr later ↦ inr (inr later) ],
  (first, (ground (arith, e, first), rest)),
)

worst_from-worst :
    (best : DriveSmart) (ds : List DriveSmart) → IsWorstOf (worst_from best ds) (best ∷ ds)
unfolding worst_from
worst_from-worst best [] = (inl refl, (omega arith, tt))
worst_from-worst best (d ∷ ds) =
    pick_worse best d ds (leb (rank best.status) (rank d.status)) refl (worst_from-worst d ds)
      (worst_from-worst best ds)

-- The report: no drive has a worse status, and where some drive has a status, the report is of a
-- drive of the list and gives no reason for being unknown.
pub record Reports (ds : List DriveSmart) (h : SmartHealth) : Type 0 where
  pub worst : All (λ d. rank d.status ≤ rank h.status) ds
  pub of_drive :
      all is_unknown ds ≡ false
      → (w : DriveSmart) × OneOf w ds
        × (h.status ≡ w.status)
        × (h.worst_device ≡ some w.device)
        × (h.worst_reasons ≡ w.reasons)
        × (h.unknown_reason ≡ none)
  pub no_status : all is_unknown ds ≡ true → h.status ≡ unknown

all_unknown-AtMost :
    (w : SmartStatus) (ds : List DriveSmart)
    → all is_unknown ds ≡ true
    → All (λ d. rank d.status ≤ rank w) ds
unfolding all rank
all_unknown-AtMost w [] h = tt
all_unknown-AtMost w (d ∷ ds) h = (ground (arith, h), all_unknown-AtMost w ds (ground (arith, h)))

-- Of one or more drives the aggregate reports one with the worst status.
pub aggregate-Reports :
    (d : DriveSmart) (ds : List DriveSmart) (now : ℤ) → Reports (d ∷ ds) (aggregate (d ∷ ds) now)
unfolding aggregate
aggregate-Reports d ds now = reports (all is_unknown (d ∷ ds)) refl
  where
    reports :
        (b : Bool)
        → all is_unknown (d ∷ ds) ≡ b
        → Reports (d ∷ ds) (report b (worst_from d ds) d ds now)
    reports true e = record {
      worst = all_unknown-AtMost unknown (d ∷ ds) e;
      of_drive = λ h. ground (arith, h, e);
      no_status = λ h. refl;
    }
    reports false e =
        let (among, worst) = worst_from-worst d ds in
        record {
          worst = worst;
          of_drive = λ h. (worst_from d ds, among, refl, refl, refl, refl);
          no_status = λ h. ground (arith, h, e);
        }
