-- ===== src/Tui/App/Openers/Effects.antt =====
-- The openers only open a modal: of what the main loop drains they fill nothing, but for the
-- snapshot, which is queued unless the instance has an operation running.
use pg_forge_cli.Base.{
  ◌≡◌, refl, Text, ◌++◌, ◌∷◌, [], none, some, arith, ◌⊎◌, inl, inr, Option-cases,
}
use pg_forge_cli.Base.Dict.{lookup}
use pg_forge_cli.Tui.Types.{snapshot}
use pg_forge_cli.Tui.App.{AppState, Env, Session, selected_name}
use pg_forge_cli.Tui.App.Openers.{
  open_snapshot_for_selected, open_clone_for_selected, open_time_for_selected,
  open_preset_for_selected, open_restore_for_selected, open_rotate_for_selected,
  open_destroy_for_selected, open_upgrade_for_selected, open_snapshots_history_for_selected,
  open_create_wizard,
}

-- Same rows, same selection, and nothing new to drain.
pub record Quiet (s t : AppState) : Type 0 where
  pub rows : t.instances ≡ s.instances
  pub selection : t.selected ≡ s.selected
  pub ops : t.pending_ops ≡ s.pending_ops
  pub creates : t.pending_creates ≡ s.pending_creates

module _ (s : AppState) where
  pub open_clone-Quiet : Quiet s (open_clone_for_selected s)
  unfolding open_clone_for_selected
  open_clone-Quiet = ground arith

  pub open_preset-Quiet : Quiet s (open_preset_for_selected s)
  unfolding open_preset_for_selected
  open_preset-Quiet = ground arith

  pub open_restore-Quiet : Quiet s (open_restore_for_selected s)
  unfolding open_restore_for_selected
  open_restore-Quiet = ground arith

  pub open_rotate-Quiet : Quiet s (open_rotate_for_selected s)
  unfolding open_rotate_for_selected
  open_rotate-Quiet = ground arith

  pub open_destroy-Quiet : Quiet s (open_destroy_for_selected s)
  unfolding open_destroy_for_selected
  open_destroy-Quiet = ground arith

  pub open_upgrade-Quiet : Quiet s (open_upgrade_for_selected s)
  unfolding open_upgrade_for_selected
  open_upgrade-Quiet = ground arith

  pub open_history-Quiet : Quiet s (open_snapshots_history_for_selected s)
  unfolding open_snapshots_history_for_selected
  open_history-Quiet = ground arith

  pub open_create-Quiet : (env : Env) → Quiet s (open_create_wizard env s)
  unfolding open_create_wizard
  open_create-Quiet env = record { rows = refl; selection = refl; ops = refl; creates = refl }

pub open_time-Quiet : (s : Session) → Quiet s.app (open_time_for_selected s).app
unfolding open_time_for_selected
open_time-Quiet s = ground arith

-- The snapshot goes into the queue exactly when an instance is selected that has none running.
pub record SnapshotQueued (s t : AppState) (n : Text) : Type 0 where
  pub selected : selected_name s ≡ some n
  pub idle : lookup n s.in_progress ≡ none
  pub queued : t.pending_ops ≡ s.pending_ops ++ (n, snapshot) ∷ []

module _ (s : AppState) where
  pub open_snapshot-queues :
      Quiet s (open_snapshot_for_selected s)
      ⊎ ((n : Text) × SnapshotQueued s (open_snapshot_for_selected s) n)
  unfolding open_snapshot_for_selected
  open_snapshot-queues = elim (Option-cases (selected_name s)) [
    | inl nobody ↦ inl (ground arith)
    | inr (n, e) ↦ elim (Option-cases (lookup n s.in_progress)) [
      | inl free ↦ inr (n, record { selected = e; idle = free; queued = ground arith })
      | inr (op, busy) ↦ inl (ground arith)
    ]
  ]

  pub open_snapshot-rows :
      ((open_snapshot_for_selected s).instances ≡ s.instances)
      × ((open_snapshot_for_selected s).selected ≡ s.selected)
      × ((open_snapshot_for_selected s).pending_creates ≡ s.pending_creates)
  unfolding open_snapshot_for_selected
  open_snapshot-rows = ground arith
