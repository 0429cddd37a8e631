-- ===== src/Domain/Snapshot.antt =====
-- domain/snapshot.rs
use pg_forge_cli.Base.{Text, Option}

pub data SnapshotKind : Type 0 where
  full diff : SnapshotKind

pub record SnapshotRecord : Type 0 where
  pub label : Text
  pub kind : SnapshotKind
  pub user_label : Option Text
  pub taken_at : Text
