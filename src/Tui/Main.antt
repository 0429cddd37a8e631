-- ===== src/Tui/Main.antt =====
-- tui/mod.rs, `run_loop`, with tui/clipboard.rs, `build_connection_uri`. A turn handles one event
-- and drains the queues; a spawned task is a value. Drawing and the channels are left out.
pub mod Runs
use pg_forge_cli.Base.{
  ℕ, zero, suc, ◌+◌, ◌/◌, ◌%◌, false, Text, codes, List, [], ◌∷◌, ◌++◌, map, Option, none, some,
  ltb, if◌then◌else◌,
}
use pg_forge_cli.Base.Decimal.{show_u16}
use pg_forge_cli.Error.{Result, ok, err}
use pg_forge_cli.Domain.Instance.{Instance}
use pg_forge_cli.State.Store.{Disk, InstanceState, load_under}
use pg_forge_cli.Tui.Types.{
  OpKind, clipboard, CreateRequest, Event, connection_string, created_success, load_failed,
}
use pg_forge_cli.Tui.App.{AppState, Env, Session, show_modal, fail_op}
use pg_forge_cli.Tui.App.Events.{apply_event}

abbrev host_or_local : Option Text → Text
host_or_local none = codes "127.0.0.1"
host_or_local (some h) = h

-- `lan_hostname()` is an argument.
unfoldable pub build_connection_uri : Option Text → Instance → Text
unfolding show_u16
build_connection_uri host i =
    codes "postgresql://"
    ++ i.app_user
    ++ codes ":"
    ++ i.app_password
    ++ codes "@"
    ++ host_or_local host
    ++ codes ":"
    ++ show_u16 i.host_port
    ++ codes "/"
    ++ i.db_name

abbrev uri_of : Option Text → Result InstanceState → Result Text
uri_of host (ok st) = ok (build_connection_uri host st.instance)
uri_of host (err e) = err e

unfoldable pub build_post_create_uri : Option Text → Disk → Text → Result Text
unfolding build_connection_uri
build_post_create_uri host disk n = uri_of host (load_under disk n)

-- A task that a turn starts.
pub data Spawned : Type 0 where
  spawn : OpKind → Text → Spawned
  refresh_one : Text → Spawned
  self_update : Spawned
  spawn_create : CreateRequest → Spawned

abbrev spawn_queued : Text × OpKind → Spawned
spawn_queued (encoded, kind) = spawn kind encoded

abbrev show_uri : Env → Text → Result Text → AppState → AppState
show_uri env n (ok uri) s = show_modal (connection_string n uri) s
show_uri env n (err e) s = fail_op env n clipboard (load_failed e) s

unfoldable pub show_uris : Env → Option Text → Disk → List Text → AppState → AppState
show_uris env host disk [] s = s
show_uris env host disk (n ∷ ns) s =
    show_uris env host disk ns (show_uri env n (build_post_create_uri host disk n) s)

-- A failure is only logged here.
abbrev show_created : Text → Result Text → AppState → AppState
show_created n (ok uri) s = show_modal (created_success n uri) s
show_created n (err e) s = s

unfoldable pub show_all_created : Option Text → Disk → List Text → AppState → AppState
show_all_created host disk [] s = s
show_all_created host disk (n ∷ ns) s =
    show_all_created host disk ns (show_created n (build_post_create_uri host disk n) s)

unfoldable pub spawned_of : AppState → List Spawned
spawned_of s =
    map spawn_queued s.pending_ops
    ++ map refresh_one s.refresh_requests
    ++ (if s.pending_self_update then self_update ∷ [] else [])
    ++ map spawn_create s.pending_creates

-- The queues after `std::mem::take`.
unfoldable pub drained : AppState → AppState
drained s = record s {
  pending_ops = [];
  pending_clipboard = [];
  refresh_requests = [];
  pending_self_update = false;
  pending_creates = [];
  pending_show_created = [];
}

-- The body of the loop for one event. Both lists of names are read before the modals change.
unfoldable pub turn : Option Text → Env → Event → Session → List Spawned × Session
unfolding spawned_of drained
turn host env ev s =
    let t = apply_event env ev s in
    (
      spawned_of t.app,
      record t {
        app =
            show_all_created host t.disk t.app.pending_show_created
              (show_uris env host t.disk t.app.pending_clipboard (drained t.app));
      },
    )

-- The loop over the events that come, until `should_quit`.
unfoldable pub run_loop : Option Text → List (Env × Event) → Session → List Spawned × Session
run_loop host [] s = ([], s)
run_loop host ((env, ev) ∷ evs) s =
    let (started, t) = turn host env ev s in
    let (later, u) = run_loop host evs t in
    if s.app.should_quit then ([], s) else (started ++ later, u)
