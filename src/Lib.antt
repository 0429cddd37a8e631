-- ===== src/Lib.antt =====
-- pg_forge_cli manages PostgreSQL instances in Docker containers: a command line and a dashboard
-- create, snapshot, clone, restore, upgrade, resize and destroy them, and watch disks.
--
-- The program's parts, and the files that model them:
-- - src/domain/: Domain (Preset with the tuning and the cycles of the dashboard, Instance with the
--   validators and the derived names, Snapshot), src/error.rs: Error. A message that `format!`
--   builds is a constructor with its arguments.
-- - src/state/instance.rs, src/state/snapshots.rs: State. The state root is a record of the
--   instances' directories and of what the file system grants; `load_under`, `save_under`,
--   `update_under`, `load_for`, `save_for` are functions of it. A file is absent, unreadable,
--   malformed, or holds what was written; parsing TOML is left out. A write that fails may have come
--   as far as the rename, and a removal that fails may have taken some of the files: how far is a
--   field of the state root.
-- - src/ports.rs: Ports. The bind probe is an argument.
-- - src/docker/engine.rs, src/docker/wait.rs: Docker. The engine is a record of answers that may
--   depend on all earlier calls; a command is a function from the state root and the list of calls
--   to a result and both of them again, so orders of calls can be stated. Docker.Wait.Polling has the
--   two waits on fuel, a turn for each second to wait and one more; Docker.Wait is the first of them
--   over given answers and instants.
-- - src/docker/cleanup.rs, src/docker/image.rs and the three entry points: Docker.Cleanup, Docker.Image,
--   Docker.Entrypoints; src/postgres/: Postgres; src/pgbackrest/: Pgbackrest; src/config/: Config;
--   src/util/fs.rs: State.Conf; src/time.rs: Time. The generated files are texts, line by line.
-- - src/commands/: Commands, one module for each of create, clone, restore, rotate, resize,
--   reconfigure, upgrade, destroy, snapshot, snapshots and dump.
--   `run` takes a Host, which is what the global configuration, the engine's connection, the ports
--   and the clock answer; `run_with_engine` of create.rs is `create_with_engine`, and so on. Commands.Kept
--   and Commands.Made carry what all of them keep and promise. A
--   dump is a function of the files of its one directory, and a path has no `/` at its end or twice
--   in a row.
-- - src/disk/health.rs: Disk; src/smart/types.rs, src/smart/check.rs, src/smart/cache.rs: Smart.
--   What statvfs answers and what serde decodes are arguments.
-- - src/tui/events.rs, src/tui/app.rs: Tui.Types, Tui.TextField and Tui.App. `AppState` is a record;
--   `apply_event` is Tui.App.Events, `handle_key` and `handle_modal_key` are Tui.App.Keys, the
--   pickers and fields of a modal are Tui.App.Pickers, the menu's openers are Tui.App.Openers,
--   `submit_modal` and `confirm_modal` are Tui.App.Submit.
-- - src/tui/mod.rs, src/tui/ops.rs, src/tui/clipboard.rs: Tui.Main (a turn of `run_loop`, with the
--   tasks it starts as values) and Tui.Ops (the decoding of queued operations).
-- Base has the helpers that all share, and Tests applies the theorems at concrete inputs.
--
-- A text is the list of its code points; machine integers are natural numbers with the source's
-- saturation, wrap-around or bound written out; instants are nanoseconds in the dashboard, seconds
-- in Smart, and milliseconds in Docker.Wait.
--
-- Not modelled: the bollard engine, drawing, pollers,
-- process spawning, the command line, and concurrency: each task of the dashboard and each command
-- runs alone. Whether writes and removals succeed is fixed for the state root, of files under `conf/` for
-- each path and text.
pub mod Base
pub mod Error
pub mod Domain
pub mod Ports
pub mod State
pub mod Disk
pub mod Smart
pub mod Pgbackrest
pub mod Postgres
pub mod Config
pub mod Time
pub mod Docker
pub mod Commands
pub mod Tui
pub mod Tests
