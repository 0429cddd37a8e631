-- ===== src/Tui/Types.antt =====
-- tui/events.rs: the events, the modals, and the rows that the pollers deliver. A message that
-- `format!` builds is a constructor with its arguments; an encoded operation is its text.
use pg_forge_cli.Base.{ℕ, Bool, Text, List, Option}
use pg_forge_cli.Domain.Preset.{Preset}
use pg_forge_cli.Domain.Snapshot.{SnapshotRecord}
use pg_forge_cli.Error.{PgForgeError}
use pg_forge_cli.Disk.Health.{DiskHealth}
use pg_forge_cli.Smart.Types.{SmartHealth}
use pg_forge_cli.Tui.TextField.{TextField}

-- A row of commands/ls.rs.
pub record InstanceSummary : Type 0 where
  pub name : Text
  pub pg_version : ℕ
  pub preset_label : Text
  pub host_port : ℕ
  pub backup_enabled : Bool
  pub backup_failing : Bool
  pub running : Bool

-- The fields of commands/status.rs that the state machine reads. `cpu_tenths` is the sample
-- `(cpu_percent * 10.0) as u64`.
pub record InstanceStatus : Type 0 where
  pub running : Bool
  pub cpu_tenths : Option ℕ
  pub uptime_seconds : Option ℕ

pub record PitrWindow : Type 0 where
  pub earliest : Option Text
  pub latest : Option Text

pub record SnapshotsView : Type 0 where
  pub list : List SnapshotRecord
  pub pitr : PitrWindow

pub data OpKind : Type 0 where
  snapshot clone rotate upgrade restore destroy create resize clipboard : OpKind

pub record RunningOp : Type 0 where
  pub kind : OpKind
  pub started_at : ℕ

-- Error messages, also the text that a failed operation reports.
pub data Message : Type 0 where
  reported : Text → Message
  went_down : Text → Message
  self_update_failed : Text → Message
  name_rejected create_name_rejected : Text → Message
  target_not_greater : ℕ → ℕ → Message
  invalid_version invalid_pg_version : Text → Message
  app_user_empty : Message
  app_user_bad_char : Text → ℕ → Message
  update_failed : PgForgeError → Message
  already_on : Preset → Message
  load_failed : PgForgeError → Message

pub data FlashText : Type 0 where
  op_done : OpKind → Text → FlashText
  updated already_current : Text → Text → FlashText
  checking_update actions_moved : FlashText
  hour_set : Text → ℕ → FlashText
  hour_off : Text → FlashText

pub record OpError : Type 0 where
  pub instance_name : Text
  pub kind : OpKind
  pub msg : Message
  pub at : ℕ

pub data FlashKind : Type 0 where
  info success : FlashKind

pub record Flash : Type 0 where
  pub msg : FlashText
  pub kind : FlashKind
  pub at : ℕ

pub record CreateRequest : Type 0 where
  pub name : Text
  pub app_user : Text
  pub app_password : Text
  pub pgbackrest_password : Text
  pub pg_version : ℕ
  pub preset : Preset
  pub no_backup : Bool
  pub retain_days : ℕ
  pub snapshot_hour : Option ℕ

pub data PendingDestructiveOp : Type 0 where
  rotate_op : Text → PendingDestructiveOp
  upgrade_op : Text → ℕ → PendingDestructiveOp
  restore_op : Text → Text → Option Text → PendingDestructiveOp
  destroy_op : Text → Bool → PendingDestructiveOp
  resize_op : Text → Preset → PendingDestructiveOp

pub data Prompt : Type 0 where
  ask_rotate : Text → Prompt
  ask_upgrade : Text → ℕ → ℕ → Prompt
  ask_restore : Text → Text → Option Text → Prompt
  ask_destroy ask_destroy_with_backups warn_delete_backups : Text → Prompt
  ask_resize : Text → Preset → Preset → Prompt

-- The fields of `Modal::Create`.
pub record CreateForm : Type 0 where
  pub name : TextField
  pub app_user : TextField
  pub pg_version : TextField
  pub preset : Preset
  pub no_backup : Bool
  pub retain_days : ℕ
  pub snapshot_hour : Option ℕ
  pub focus : ℕ
  pub generated_password : Text
  pub generated_pgbackrest_password : Text

-- The fields of `Modal::RestoreAs`.
pub record RestoreForm : Type 0 where
  pub source : Text
  pub as_input : TextField
  pub minutes_ago : ℕ
  pub focus : ℕ
  pub pitr_earliest : Option Text
  pub uptime_cap_min : Option ℕ

pub data Modal : Type 0 where
  actions_menu : Text → Modal
  clone_as upgrade_to : Text → TextField → Modal
  restore_as : RestoreForm → Modal
  confirm : PendingDestructiveOp → Prompt → Modal
  snapshots_of : Text → SnapshotsView → Modal
  error_detail : Message → Modal
  create_form : CreateForm → Modal
  created_success connection_string : Text → Text → Modal
  help : Modal
  resize_to : Text → Preset → Preset → Modal
  schedule_edit : Text → Option ℕ → Option ℕ → Modal
  destroy_options : Text → Bool → Modal

-- The keys that some handler reads; the others do nothing anywhere.
pub data KeyCode : Type 0 where
  char : ℕ → KeyCode
  enter esc tab back_tab backspace left right up down other : KeyCode

pub data Event : Type 0 where
  key : KeyCode → Event
  tick : Event
  instances_listed : List InstanceSummary → Event
  status_refreshed : Text → InstanceStatus → Event
  snapshots_refreshed : Text → SnapshotsView → Event
  op_started : Text → OpKind → Event
  op_finished : Text → OpKind → Option Text → Event
  refresh_failed : Text → Event
  self_update_done : Bool → Text → Text → Event
  self_update_error : Text → Event
  disk_health_refreshed : DiskHealth → Event
  smart_refreshed : SmartHealth → Event
