-- ===== src/Config.antt =====
-- config/global.rs: the global configuration, and what loading it answers.
use pg_forge_cli.Base.{ℕ, Option, none}
use pg_forge_cli.Error.{Result, ok, err, io, config_malformed}
use pg_forge_cli.Pgbackrest.Conf.{S3Settings}
use pg_forge_cli.State.Store.{File, absent, unreadable, malformed, holds}

pub record GlobalConfig : Type 0 where
  pub s3 : Option S3Settings
  pub port_range_start : ℕ
  pub port_range_end : ℕ

-- `Default`
abbrev pub default_config : GlobalConfig
default_config = record { s3 = none; port_range_start = 5433; port_range_end = 5500 }

-- A file that is not there is the default.
unfoldable pub load_from : File GlobalConfig → Result GlobalConfig
load_from absent = ok default_config
load_from unreadable = err io
load_from malformed = err config_malformed
load_from (holds c) = ok c
