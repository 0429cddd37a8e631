-- ===== src/Commands/Create/Bootstrap.antt =====
-- commands/create.rs, `bootstrap_create`.
use pg_forge_cli.Base.{
  ℕ, zero, suc, not, ◌||◌, Bool, Text, codes, List, [], ◌∷◌, none, if◌then◌else◌,
}
use pg_forge_cli.Base.Int.{is_zero}
use pg_forge_cli.Base.Lines.{has_part}
use pg_forge_cli.Error.{PgForgeError, docker, stanza_create_failed}
use pg_forge_cli.State.Store.{InstanceState}
use pg_forge_cli.Docker.Engine.{
  ◌>>=◌, ◌>>◌, Engine, ExecOutput, Action, done, fail, skip, log, running_exec, sleep, only_if,
  starting, awaiting_running,
}
use pg_forge_cli.Docker.Wait.Polling.{wait_for_pg_ready}
use pg_forge_cli.Commands.Create.{CreateArgs}

abbrev pub stanza_create : List Text
stanza_create =
    codes "su"
    ∷ codes "-"
    ∷ codes "postgres"
    ∷ codes "-c"
    ∷ codes "pgbackrest --stanza=main stanza-create"
    ∷ []

abbrev is_lock_busy : ExecOutput → Bool
is_lock_busy out =
    has_part (codes "unable to acquire lock") out.stdout
    || has_part (codes "unable to acquire lock") out.stderr

abbrev pub stanza_failed : ExecOutput → PgForgeError
stanza_failed out = docker (stanza_create_failed out.exit_code out.stdout out.stderr)

-- The attempts that are left decide whether a busy lock is tried again, after a pause.
abbrev pub retry_stanza : ℕ → ExecOutput → Action (Unit {0}) → Action (Unit {0})
retry_stanza zero out next = fail (stanza_failed out)
retry_stanza (suc left) out next = sleep 1500 >> next

abbrev pub after_stanza : ℕ → ExecOutput → Action (Unit {0}) → Action (Unit {0})
after_stanza left out next =
    if is_zero out.exit_code
    then skip
    else if is_lock_busy out
    then retry_stanza left out next
    else fail (stanza_failed out)

-- With that many attempts left after this one
unfoldable pub stanza_attempts : Engine → Text → ℕ → Action (Unit {0})
stanza_attempts engine id zero =
    running_exec id stanza_create (λ h. engine.exec h id stanza_create) >>= λ out.
    after_stanza 0 out skip
stanza_attempts engine id (suc left) =
    running_exec id stanza_create (λ h. engine.exec h id stanza_create) >>= λ out.
    after_stanza (suc left) out (stanza_attempts engine id left)

-- From a created container to one that accepts connections.
unfoldable pub boot : Engine → Text → ℕ → Action (Unit {0})
boot engine id seconds = do
  log (starting id) (λ h. engine.start_container h id)
  log (awaiting_running id) (λ h. engine.wait_for_container_running h id 30)
  wait_for_pg_ready engine id seconds

abbrev pub new_state : CreateArgs → ℕ → Text → InstanceState
new_state args port now = record {
  instance = record {
    name = args.name;
    db_name = args.name;
    app_user = args.app_user;
    app_password = args.app_password;
    pgbackrest_password = args.pgbackrest_password;
    preset = args.preset;
    pg_version = args.pg_version;
    host_port = port;
    backup_enabled = not args.no_backup;
    volume_name_override = none;
    retain_days = args.retain_days;
    snapshot_hour = args.snapshot_hour;
    last_snapshot_at = none;
    last_snapshot_attempt_at = none;
    full_backup_day = 0;
  };
  created_at = now;
}

-- Five attempts at the stanza.
unfoldable pub bootstrap_create : Engine → Text → CreateArgs → ℕ → Text → Action InstanceState
bootstrap_create engine id args port now = do
  boot engine id 30
  only_if (not args.no_backup) (stanza_attempts engine id 4)
  done (new_state args port now)
