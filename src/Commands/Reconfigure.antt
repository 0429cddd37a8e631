-- ===== src/Commands/Reconfigure.antt =====
-- commands/reconfigure.rs: pg_hba.conf anew, and a reload.
use pg_forge_cli.Base.{Text, codes, List, [], ◌∷◌, if◌then◌else◌}
use pg_forge_cli.Base.Int.{is_zero}
use pg_forge_cli.Error.{docker, reload_failed}
use pg_forge_cli.Postgres.Hba.{generate_pg_hba}
use pg_forge_cli.State.Store.{InstanceState, load_under}
use pg_forge_cli.State.Conf.{write_plain}
use pg_forge_cli.Docker.Engine.{
  ◌>>=◌, ◌>>◌, Engine, ExecOutput, Action, fail, skip, reading, writing, running_exec,
}
use pg_forge_cli.Commands.Host.{Host, container_named}
use pg_forge_cli.Commands.Create.{for_instance}

abbrev reload_argv : List Text
reload_argv =
    codes "su"
    ∷ codes "-"
    ∷ codes "postgres"
    ∷ codes "-c"
    ∷ codes "pg_ctl reload -D /var/lib/postgresql/data/pgdata"
    ∷ []

abbrev check_reload : ExecOutput → Action (Unit {0})
check_reload out =
    if is_zero out.exit_code then skip else fail (docker (reload_failed out.exit_code out.stderr))

unfoldable pub reconfigure_with_engine : Text → InstanceState → Engine → Action (Unit {0})
reconfigure_with_engine name state engine = do
  writing (
      write_plain name (for_instance name).pg_hba
        (generate_pg_hba state.instance.db_name state.instance.app_user))
  out ←
      running_exec (container_named name) reload_argv
        (λ h. engine.exec h (container_named name) reload_argv)
  check_reload out

unfoldable pub reconfigure : Host → Text → Action (Unit {0})
reconfigure host name = do
  state ← reading (λ disk. load_under disk name)
  engine ← reading (λ _. host.connect)
  reconfigure_with_engine name state engine
