-- ===== src/Tests/Dashboard.antt =====
-- Runs of src/tui/.
use pg_forge_cli.Base.{
  ℕ, ◌≤◌, true, false, Text, codes, List, [], ◌∷◌, none, some, All, all, ◌≡◌, refl, arith,
}
use pg_forge_cli.Base.Int.{pos}
use pg_forge_cli.Domain.Instance.{is_valid_name}
use pg_forge_cli.Domain.Preset.{small}
use pg_forge_cli.Tui.Types.{
  InstanceSummary, char, enter, CreateForm, destroy_op, clone, clone_as, Event, key,
  instances_listed,
}
use pg_forge_cli.Tui.TextField.{TextField}
use pg_forge_cli.Tui.TextField.Zipper.{
  Edit, edit, edit_zipper, edit_all, edit_all_zipper, field, edit-field, edit_all-field,
}
use pg_forge_cli.Tui.TextField.Zipper as Zipper
use pg_forge_cli.Tui.App.{Env, Session, initial}
use pg_forge_cli.Tui.App.Pickers.{hour_key, pick_minutes, create_key}
use pg_forge_cli.Tui.App.Pickers.Bounds.{
  IsHour, FormInRange, hour_key-IsHour, pick_minutes-le, create_key-FormInRange,
}
use pg_forge_cli.Tui.App.Submit.{encode, submit_modal}
use pg_forge_cli.Tui.App.Keys.{handle_key}
use pg_forge_cli.Tui.App.Keys.Queue.{Queued, handle_key-Queued}
use pg_forge_cli.Tui.App.Events.{list_instances, apply_event}
use pg_forge_cli.Tui.App.Events.Selection.{Listed, list_instances-Listed}
use pg_forge_cli.Tui.App.Events.Ops.{Asked, apply_event-Asked}
use pg_forge_cli.Tui.Ops.{decode, run_clone}
use pg_forge_cli.Tui.Ops.RoundTrip.{job_of, decode-encode, decode-submit_modal}
use pg_forge_cli.Tui.Main.{run_loop}
use pg_forge_cli.Tui.Main.Runs.{Idle, IsSafe, initial-Idle, run_loop-IsSafe}
use pg_forge_cli.Tests.Fixtures.{pg, disk}

-- `é` takes two bytes.
edit-field_example :
    edit (Zipper.insert 233) (field (98 ∷ 97 ∷ [], 99 ∷ []))
    ≡ some (field (edit_zipper (Zipper.insert 233) (98 ∷ 97 ∷ [], 99 ∷ [])))
edit-field_example = edit-field (Zipper.insert 233) (98 ∷ 97 ∷ [], 99 ∷ [])

abbrev edits : List Edit
edits = Zipper.insert 233 ∷ Zipper.left ∷ Zipper.insert 97 ∷ Zipper.right ∷ Zipper.delete ∷ []

edit_all-field_example :
    edit_all edits (field ([], [])) ≡ some (field (edit_all_zipper edits ([], [])))
edit_all-field_example = edit_all-field edits ([], [])

hour_key-IsHour_example : IsHour (hour_key (char b'9') (some 23)).0
hour_key-IsHour_example = hour_key-IsHour (char b'9') (some 23) (omega arith)

pick_minutes-le_example : pick_minutes 90 (char b'7') 15 ≤ 90
pick_minutes-le_example = pick_minutes-le 90 (char b'7') 15 (omega arith)

abbrev form : CreateForm
form = record {
  name = record { buf = pg; cursor = 2 };
  app_user = record { buf = codes "app"; cursor = 3 };
  pg_version = record { buf = codes "18"; cursor = 2 };
  preset = small;
  no_backup = false;
  retain_days = 30;
  snapshot_hour = some 3;
  focus = 6;
  generated_password = codes "x";
  generated_pgbackrest_password = codes "y";
}

create_key-FormInRange_example : FormInRange (create_key (char b'9') form).0
create_key-FormInRange_example =
    create_key-FormInRange (char b'9') form
      (record { focus_lt = omega arith; hour = omega arith; days = omega arith })

abbrev samples : List ℕ
samples =
    1 ∷ 2 ∷ 3 ∷ 4 ∷ 5 ∷ 6 ∷ 7 ∷ 8 ∷ 9 ∷ 10 ∷ 11 ∷ 12 ∷ 13 ∷ 14 ∷ 15 ∷ 16 ∷ 17 ∷ 18 ∷ 19 ∷ 20 ∷ 21
    ∷ 22 ∷ 23 ∷ 24 ∷ 25 ∷ 26 ∷ 27 ∷ 28 ∷ 29 ∷ 30 ∷ 31 ∷ 32 ∷ []

decode-encode_example :
    decode (encode (destroy_op pg true)).1 (encode (destroy_op pg true)).0
    ≡ job_of (destroy_op pg true)
decode-encode_example = decode-encode (destroy_op pg true) (unfold is_valid_name all in refl)

abbrev env : Env
env = record {
  instant = 5;
  seconds_since = λ t. some (pos 3600);
  minutes_before = λ m. codes "2026-05-12 10:00:00";
  random_name = λ n. codes "brisk-otter";
  random_password = λ n. codes "pw";
}

abbrev row : InstanceSummary
row = record {
  name = pg;
  pg_version = 18;
  preset_label = codes "Small";
  host_port = 5433;
  backup_enabled = true;
  backup_failing = false;
  running = true;
}

abbrev session : Session
session = record { app = initial 0; disk = disk }

abbrev copy_field : TextField
copy_field = record { buf = codes "copy"; cursor = 4 }

abbrev cloning : Session
cloning = record session { app = record (initial 0) { modal = some (clone_as pg copy_field) } }

decode-submit_modal_example :
    (text : Text) × (((submit_modal env cloning).app.pending_ops ≡ (text, clone) ∷ [])
      × (decode clone text ≡ run_clone pg (codes "copy")))
unfolding initial
decode-submit_modal_example =
    decode-submit_modal env cloning pg copy_field refl (unfold is_valid_name all in refl)
      (unfold is_valid_name all in refl)

-- The list comes, the menu of its first row is opened, and the snapshot is asked for.
abbrev events : List (Env × Event)
events =
    (env, instances_listed (row ∷ []))
    ∷ (env, key (char b'a'))
    ∷ (env, key (char b's'))
    ∷ (env, key (char b'n'))
    ∷ (env, key enter)
    ∷ []

run_loop-IsSafe_example :
    All IsSafe (run_loop none events session).0 × Idle (run_loop none events session).1.app
run_loop-IsSafe_example = run_loop-IsSafe none events session (initial-Idle 0)

abbrev listed : Session
listed =
    (run_loop none ((env, instances_listed (row ∷ [])) ∷ (env, key (char b'a')) ∷ []) session).1

handle_key-Queued_example : Queued (char b's') listed.app (handle_key env (char b's') listed).app
handle_key-Queued_example = handle_key-Queued env (char b's') listed

apply_event-Asked_example :
    Asked listed.app (apply_event env (key (char b's')) listed).app (key (char b's'))
apply_event-Asked_example = apply_event-Asked env (key (char b's')) listed

list_instances-Listed_example : Listed (row ∷ []) listed.app (list_instances (row ∷ []) listed.app)
list_instances-Listed_example = list_instances-Listed (row ∷ []) listed.app
