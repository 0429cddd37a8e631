-- ===== src/Disk/Worst.antt =====
-- Which mount the aggregate reports.
use pg_forge_cli.Base.{
  ◌≤◌, ◌≡◌, refl, ◌⊎◌, inl, inr, List, [], ◌∷◌, some, All, ltb, arith, Bool-cases,
}
use pg_forge_cli.Disk.Health.{
  from_used_pct, rank, MountUsage, DiskHealth, takes, worst_loop, summary, aggregate,
}

-- The fuller mount has the worse status, or the same.
takes_iff : (m w : MountUsage) → takes m w ≡ ltb w.used_pct m.used_pct
unfolding rank from_used_pct
takes_iff m w = ground arith

-- The report names a mount of the list.
abbrev pub Among : DiskHealth → List MountUsage → Type 0
Among h [] = ⊥
Among h (m ∷ ms) =
    ((h.worst_pct ≡ m.used_pct) × (h.worst_label ≡ m.mount_label) × (h.worst_mount ≡ m.mount_path))
    ⊎ Among h ms

-- The reported mount is in the list, no mount is fuller, and the status is that of its percentage.
pub record IsWorst (ms : List MountUsage) (h : DiskHealth) : Type 0 where
  pub among : Among h ms
  pub worst : All (λ m. m.used_pct ≤ h.worst_pct) ms
  pub agrees : h.status ≡ from_used_pct h.worst_pct

fuller_first :
    (w m : MountUsage) (ms : List MountUsage) (h : DiskHealth)
    → w.used_pct ≤ m.used_pct
    → IsWorst (m ∷ ms) h
    → IsWorst (w ∷ m ∷ ms) h
fuller_first w m ms h le g = record {
  among = inr g.among;
  worst = (omega (arith, le, g.worst.0), g.worst);
  agrees = g.agrees;
}

fuller_later :
    (w m : MountUsage) (ms : List MountUsage) (h : DiskHealth)
    → m.used_pct ≤ w.used_pct
    → IsWorst (w ∷ ms) h
    → IsWorst (w ∷ m ∷ ms) h
fuller_later w m ms h le g = record {
  among = elim g.among [ inl same ↦ inl same | inr later ↦ inr (inr later) ];
  worst = (g.worst.0, (omega (arith, le, g.worst.0), g.worst.1));
  agrees = g.agrees;
}

-- The loop from a worst so far, which carries its status.
loop-IsWorst :
    (w : MountUsage) (ms : List MountUsage)
    → IsWorst (w ∷ ms) (summary (worst_loop ms (some w) (from_used_pct w.used_pct)))
unfolding worst_loop
loop-IsWorst w [] = record {
  among = inl (refl, refl, refl);
  worst = (omega arith, tt);
  agrees = refl;
}
loop-IsWorst w (m ∷ ms) = elim (Bool-cases (takes m w)) [
  | inl fuller ↦
      rw fuller (fuller_first w m ms _ (ground (arith, fuller, takes_iff m w)) (loop-IsWorst m ms))
  | inr other ↦
      rw other (fuller_later w m ms _ (ground (arith, other, takes_iff m w)) (loop-IsWorst w ms))
]

-- Of one or more measured mounts the fullest is reported, with the status of its percentage.
pub aggregate-IsWorst :
    (m : MountUsage) (ms : List MountUsage) → IsWorst (m ∷ ms) (aggregate (m ∷ ms))
unfolding aggregate worst_loop
aggregate-IsWorst m ms = loop-IsWorst m ms
