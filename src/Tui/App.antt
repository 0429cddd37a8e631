-- ===== src/Tui/App.antt =====
-- tui/app.rs: the state that the main loop owns, and what one event reads of the outside.
pub mod Openers
pub mod Pickers
pub mod Submit
pub mod Keys
pub mod Events
use pg_forge_cli.Base.{ℕ, Bool, false, Text, List, [], ◌∷◌, ◌++◌, Option, none, some}
use pg_forge_cli.Base.{get_elem?}
use pg_forge_cli.Base.Dict.{Dict}
use pg_forge_cli.Base.Int.{ℤ}
use pg_forge_cli.Disk.Health.{DiskHealth}
use pg_forge_cli.Smart.Types.{SmartHealth}
use pg_forge_cli.State.Store.{Disk}
use pg_forge_cli.Tui.Types.{
  InstanceSummary, InstanceStatus, SnapshotsView, RunningOp, OpKind, Modal, OpError, Flash, Message,
  CreateRequest,
}

pub record AppState : Type 0 where
  pub instances : List InstanceSummary
  pub statuses : Dict InstanceStatus
  pub cpu_history : Dict (List ℕ)
  pub pending_self_update : Bool
  pub snapshots : Dict SnapshotsView
  pub in_progress : Dict RunningOp
  pub selected : ℕ
  pub modal : Option Modal
  pub last_op_error : Option OpError
  pub flash : Option Flash
  pub stale_status : List Text
  pub now : ℕ
  pub should_quit : Bool
  pub pending_ops : List (Text × OpKind)
  pub pending_clipboard : List Text
  pub refresh_requests : List Text
  pub pending_creates : List CreateRequest
  pub pending_show_created : List Text
  pub disk_health : Option DiskHealth
  pub smart_health : Option SmartHealth

-- `Default`, at an instant
unfoldable pub initial : ℕ → AppState
initial now = record {
  instances = [];
  statuses = [];
  cpu_history = [];
  pending_self_update = false;
  snapshots = [];
  in_progress = [];
  selected = 0;
  modal = none;
  last_op_error = none;
  flash = none;
  stale_status = [];
  now = now;
  should_quit = false;
  pending_ops = [];
  pending_clipboard = [];
  refresh_requests = [];
  pending_creates = [];
  pending_show_created = [];
  disk_health = none;
  smart_health = none;
}

-- What the handling of one event reads: the instant (nanoseconds), jiff's reading of a timestamp
-- as the seconds since then, jiff's text of the time some minutes ago, and the random samples.
pub record Env : Type 0 where
  pub instant : ℕ
  pub seconds_since : Text → Option ℤ
  pub minutes_before : ℕ → Text
  pub random_name : ℕ → Text
  pub random_password : ℕ → Text

-- The state together with the state root, which the schedule editor reads and writes.
pub record Session : Type 0 where
  pub app : AppState
  pub disk : Disk

abbrev pub name_at : Option InstanceSummary → Option Text
name_at none = none
name_at (some i) = some i.name

unfoldable pub selected_instance : AppState → Option InstanceSummary
selected_instance s = get_elem? s.instances s.selected

unfoldable pub selected_name : AppState → Option Text
unfolding selected_instance
selected_name s = name_at (selected_instance s)

abbrev pub show_modal : Modal → AppState → AppState
show_modal m s = record s { modal = some m }

abbrev pub push_op : Text → OpKind → AppState → AppState
push_op encoded kind s = record s { pending_ops = s.pending_ops ++ (encoded, kind) ∷ [] }

abbrev pub fail_op : Env → Text → OpKind → Message → AppState → AppState
fail_op env name kind msg s = record s {
  last_op_error = some (record { instance_name = name; kind = kind; msg = msg; at = env.instant });
}
