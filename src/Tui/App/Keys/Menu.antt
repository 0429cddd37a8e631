-- ===== src/Tui/App/Keys/Menu.antt =====
-- The nine openers of the actions menu, taken together.
use pg_forge_cli.Base.{ℕ, All, inl, inr, List, [], ◌∷◌, Option, none, some, Bool-cases, ◌==◌}
use pg_forge_cli.Tui.Types.{KeyCode, char}
use pg_forge_cli.Tui.App.{AppState, Session}
use pg_forge_cli.Tui.App.Openers.Effects.{
  Quiet, open_clone-Quiet, open_preset-Quiet, open_restore-Quiet, open_rotate-Quiet,
  open_destroy-Quiet, open_upgrade-Quiet, open_history-Quiet,
}
use pg_forge_cli.Tui.App.Openers.{
  open_snapshot_for_selected, open_clone_for_selected, open_rotate_for_selected,
  open_preset_for_selected, open_time_for_selected, open_restore_for_selected,
  open_destroy_for_selected, open_upgrade_for_selected, open_snapshots_history_for_selected,
}
use pg_forge_cli.Tui.App.Submit.{on_app}
use pg_forge_cli.Tui.App.Keys.{menu, entry_of, menu_key}

module _ (P : (Session → Session) → Type 0) where
  abbrev pub Always : Option (Session → Session) → Type 0
  Always none = Unit
  Always (some f) = P f

  entry_of-Always :
      (c : ℕ) (entries : List (ℕ × (Session → Session)))
      → All (λ entry. P entry.1) entries
      → Always (entry_of c entries)
  unfolding entry_of
  entry_of-Always c [] h = tt
  entry_of-Always c ((d, f) ∷ rest) (p, h) = elim (Bool-cases (c == d)) [
    | inl same ↦ rw same p
    | inr differs ↦ rw differs (entry_of-Always c rest h)
  ]

  -- What holds of every opener holds of the one that a key names.
  pub menu_key-Always :
      P (on_app open_snapshot_for_selected)
      → P open_time_for_selected
      → ((f : AppState → AppState) → ((s : AppState) → Quiet s (f s)) → P (on_app f))
      → (k : KeyCode) → Always (menu_key k)
  menu_key-Always snap time quiet k = go k
    where
      entries : All (λ entry. P entry.1) menu
      entries = (
        snap,
        (
          quiet open_clone_for_selected open_clone-Quiet,
          (
            quiet open_rotate_for_selected open_rotate-Quiet,
            (
              quiet open_preset_for_selected open_preset-Quiet,
              (
                time,
                (
                  quiet open_restore_for_selected open_restore-Quiet,
                  (
                    quiet open_destroy_for_selected open_destroy-Quiet,
                    (
                      quiet open_upgrade_for_selected open_upgrade-Quiet,
                      (quiet open_snapshots_history_for_selected open_history-Quiet, tt),
                    ),
                  ),
                ),
              ),
            ),
          ),
        ),
      )

      go : (k : KeyCode) → Always (menu_key k)
      go (char c) = unfold menu_key in entry_of-Always c menu entries
      go _ = unfold menu_key in tt
