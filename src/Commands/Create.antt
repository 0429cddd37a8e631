-- ===== src/Commands/Create.antt =====
-- commands/create.rs: the layout of `conf/`, the files and the container of an instance.
pub mod Bootstrap
pub mod Run
pub mod Outcome
use pg_forge_cli.Base.{
  ℕ, Bool, true, Text, codes, List, [], ◌∷◌, ◌++◌, Option, none, some, if◌then◌else◌,
}
use pg_forge_cli.Base.Decimal.{show_u8}
use pg_forge_cli.Base.Dict.{Dict}
use pg_forge_cli.Domain.Preset.{Preset, tuning}
use pg_forge_cli.State.Store.{Mode}
use pg_forge_cli.State.Conf.{create_secret_dir, write_with, write_plain}
use pg_forge_cli.Postgres.Conf.{generate_postgresql_conf_with_archive}
use pg_forge_cli.Postgres.Hba.{generate_pg_hba}
use pg_forge_cli.Postgres.InitSql.{generate_init_sql}
use pg_forge_cli.Pgbackrest.Conf.{S3Settings, generate_pgbackrest_conf}
use pg_forge_cli.Docker.Image.{dockerfile}
use pg_forge_cli.Docker.Engine.{
  ◌>>=◌, ◌>>◌, Engine, Action, skip, writing, log, building, networking, creating, BindMount,
  NamedVolume, CreateContainerSpec, unless_stopped,
}
use pg_forge_cli.Commands.Host.{container_named}

pub record CreateArgs : Type 0 where
  pub name : Text
  pub preset : Preset
  pub pg_version : ℕ
  pub app_user : Text
  pub app_password : Text
  pub pgbackrest_password : Text
  pub no_backup : Bool
  pub retain_days : ℕ
  pub snapshot_hour : Option ℕ

-- Paths from the state root.
pub record ConfigLayout : Type 0 where
  pub root : Text
  pub postgresql_conf : Text
  pub pg_hba : Text
  pub pgbackrest_conf : Text
  pub init_sql : Text

abbrev pub conf_root : Text → Text
conf_root name = codes "instances/" ++ name ++ codes "/conf"

unfoldable pub for_instance : Text → ConfigLayout
for_instance name = record {
  root = conf_root name;
  postgresql_conf = conf_root name ++ codes "/postgresql.conf";
  pg_hba = conf_root name ++ codes "/pg_hba.conf";
  pgbackrest_conf = conf_root name ++ codes "/pgbackrest.conf";
  init_sql = conf_root name ++ codes "/init/01-pgforge-bootstrap.sql";
}

-- The directory and the two files that every instance has.
unfoldable pub write_postgres : Text → Preset → Bool → Text → Text → Action (Unit {0})
write_postgres name preset with_archive db_name app_user = do
  writing (create_secret_dir name)
  writing (
      write_plain name (for_instance name).postgresql_conf
        (generate_postgresql_conf_with_archive preset with_archive))
  writing (write_plain name (for_instance name).pg_hba (generate_pg_hba db_name app_user))

-- The files of an instance with backups, in the mode that the command gives them.
unfoldable pub write_backup_files : Mode → Text → ℕ → Text → Option S3Settings → Action (Unit {0})
write_backup_files mode name retain_days password none = skip
write_backup_files mode name retain_days password (some s3) = do
  writing (
      write_with mode name (for_instance name).pgbackrest_conf
        (generate_pgbackrest_conf name s3 retain_days))
  writing (create_secret_dir name)
  writing (write_with mode name (for_instance name).init_sql (generate_init_sql password))

abbrev pub image_of : ℕ → Text
image_of version = codes "pgforge/postgres:" ++ show_u8 version

abbrev pub network_name : Text
network_name = codes "pgforge_net"

-- The image of the version, then the network.
unfoldable pub prepare_engine : Engine → ℕ → Action (Unit {0})
prepare_engine engine version = do
  log (building (record { tag = image_of version; dockerfile = dockerfile version })) (λ h.
      engine.build_image h (record { tag = image_of version; dockerfile = dockerfile version }))
  log (networking network_name) (λ h. engine.ensure_network h network_name)

abbrev pub read_only_bind : Text → Text → BindMount
read_only_bind host container = record {
  host_path = host;
  container_path = container;
  read_only = true;
}

abbrev pub postgres_binds : Text → List BindMount
postgres_binds name =
    read_only_bind (for_instance name).postgresql_conf (codes "/etc/postgresql/postgresql.conf")
    ∷ read_only_bind (for_instance name).pg_hba (codes "/etc/postgresql/pg_hba.conf")
    ∷ []

abbrev backup_binds : Text → List BindMount
backup_binds name =
    read_only_bind (for_instance name).pgbackrest_conf (codes "/etc/pgbackrest/pgbackrest.conf")
    ∷ read_only_bind (for_instance name).init_sql
        (codes "/docker-entrypoint-initdb.d/01-pgforge-bootstrap.sql")
    ∷ []

abbrev pub regular_binds : Text → Bool → List BindMount
regular_binds name backups = postgres_binds name ++ (if backups then backup_binds name else [])

abbrev pub postgres_env : Text → Text → Text → Dict Text
postgres_env user password db =
    (codes "POSTGRES_USER", user)
    ∷ (codes "POSTGRES_PASSWORD", password)
    ∷ (codes "POSTGRES_DB", db)
    ∷ (codes "PGDATA", codes "/var/lib/postgresql/data/pgdata")
    ∷ []

abbrev pub data_volume : Text → List NamedVolume
data_volume volume =
    record { volume_name = volume; container_path = codes "/var/lib/postgresql/data" } ∷ []

abbrev pub postgres_cmd : List Text
postgres_cmd =
    codes "postgres"
    ∷ codes "-c"
    ∷ codes "config_file=/etc/postgresql/postgresql.conf"
    ∷ codes "-c"
    ∷ codes "hba_file=/etc/postgresql/pg_hba.conf"
    ∷ []

-- What the specifications of all instances' containers have in common.
unfoldable pub instance_spec :
    Text → ℕ → Dict Text → List BindMount → Text → ℕ → Preset → CreateContainerSpec
instance_spec name version env binds volume port preset = record {
  container_name = container_named name;
  image = image_of version;
  env = env;
  binds = binds;
  volumes = data_volume volume;
  host_port = port;
  container_port = 5432;
  memory_mb = (tuning preset).ram_mb;
  network = network_name;
  shm_size_mb = 256;
  entrypoint_override = none;
  cmd_override = some postgres_cmd;
  restart_policy = unless_stopped;
}

abbrev pub make_container : Engine → CreateContainerSpec → Action Text
make_container engine spec = log (creating spec) (λ h. engine.create_container h spec)
