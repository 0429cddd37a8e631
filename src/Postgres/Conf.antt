-- ===== src/Postgres/Conf.antt =====
-- postgres/conf.rs: the text of postgresql.conf.
use pg_forge_cli.Base.{Bool, true, false, Text, codes, List, [], ◌∷◌, ◌++◌}
use pg_forge_cli.Base.Lines.{unlines}
use pg_forge_cli.Base.Decimal.{show_u32}
use pg_forge_cli.Domain.Preset.{Preset, tiny, small, medium, large, Tuning, tuning}

-- `{:?}` of a preset
abbrev pub debug_name : Preset → Text
debug_name tiny = codes "Tiny"
debug_name small = codes "Small"
debug_name medium = codes "Medium"
debug_name large = codes "Large"

abbrev wal_sync_method : Text
wal_sync_method = codes "fdatasync"

unfoldable pub archive_block : Bool → List Text
archive_block true =
    codes "# ----- Archiving (pgBackRest, async push to S3) -----------------------------"
    ∷ codes "archive_mode = on"
    ∷ codes "archive_command = 'pgbackrest --stanza=main archive-push %p'"
    ∷ codes "archive_timeout = 60"
    ∷ []
archive_block false =
    codes "# ----- Archiving -------------------------------------------------------------"
    ∷ codes "# Disabled: instance created with --no-backup (local dev / test). pgbackrest"
    ∷ codes "# is not configured, so archive_command would fail every WAL segment."
    ∷ codes "archive_mode = off"
    ∷ []

abbrev head_block : Preset → Tuning → List Text
head_block preset t =
    codes
      "# Generated by pgforge — do not edit by hand. Regenerate via `pgforge create` or `pgforge reconfigure`."
    ∷ codes "#"
    ∷ (codes "# Preset: " ++ debug_name preset)
    ∷ (codes "# RAM budget: " ++ show_u32 t.ram_mb ++ codes " MB")
    ∷ codes "#"
    ∷ []
    ∷ codes "# ----- Connections ----------------------------------------------------------"
    ∷ codes "listen_addresses = '*'"
    ∷ codes "port = 5432"
    ∷ (codes "max_connections = " ++ show_u32 t.max_connections)
    ∷ codes "superuser_reserved_connections = 3"
    ∷ []
    ∷ codes "# ----- Memory ---------------------------------------------------------------"
    ∷ (codes "shared_buffers = " ++ show_u32 t.shared_buffers_mb ++ codes "MB")
    ∷ (codes "effective_cache_size = " ++ show_u32 t.effective_cache_size_mb ++ codes "MB")
    ∷ (codes "work_mem = " ++ show_u32 t.work_mem_mb ++ codes "MB")
    ∷ codes "maintenance_work_mem = 64MB"
    ∷ []
    ∷ codes "# ----- WAL / Durability -----------------------------------------------------"
    ∷ codes "fsync = on"
    ∷ codes "synchronous_commit = on"
    ∷ codes "full_page_writes = on"
    ∷ codes "wal_compression = on"
    ∷ (codes "wal_sync_method = " ++ wal_sync_method)
    ∷ codes "wal_level = replica"
    ∷ (codes "max_wal_size = " ++ show_u32 t.max_wal_size_mb ++ codes "MB")
    ∷ codes "min_wal_size = 256MB"
    ∷ codes "checkpoint_timeout = 15min"
    ∷ codes "checkpoint_completion_target = 0.9"
    ∷ []
    ∷ []

abbrev tail_block : List Text
tail_block =
    []
    ∷ codes "# ----- Security -------------------------------------------------------------"
    ∷ codes "ssl = off"
    ∷ codes "password_encryption = scram-sha-256"
    ∷ []
    ∷ codes "# ----- Logging --------------------------------------------------------------"
    ∷ codes "log_destination = 'stderr'"
    ∷ codes "logging_collector = on"
    ∷ codes "log_directory = '/var/log/postgresql'"
    ∷ codes "log_filename = 'postgresql-%Y-%m-%d.log'"
    ∷ codes "log_rotation_age = 1d"
    ∷ codes "log_rotation_size = 100MB"
    ∷ codes "log_min_duration_statement = 1000"
    ∷ codes "log_checkpoints = on"
    ∷ codes "log_connections = off"
    ∷ codes "log_disconnections = off"
    ∷ codes "log_lock_waits = on"
    ∷ codes "log_temp_files = 0"
    ∷ codes "log_line_prefix = '%t [%p]: db=%d,user=%u,app=%a,client=%h '"
    ∷ []
    ∷ codes "# ----- Autovacuum -----------------------------------------------------------"
    ∷ codes "autovacuum = on"
    ∷ codes "autovacuum_max_workers = 3"
    ∷ codes "autovacuum_naptime = 30s"
    ∷ codes "autovacuum_vacuum_scale_factor = 0.05"
    ∷ codes "autovacuum_analyze_scale_factor = 0.02"
    ∷ []

-- The lines that `generate_postgresql_conf_with_archive` writes
unfoldable pub conf_lines : Preset → Bool → List Text
unfolding archive_block
conf_lines preset with_archive =
    head_block preset (tuning preset) ++ archive_block with_archive ++ tail_block

unfoldable pub generate_postgresql_conf_with_archive : Preset → Bool → Text
unfolding conf_lines
generate_postgresql_conf_with_archive preset with_archive = unlines (conf_lines preset with_archive)

unfoldable pub generate_postgresql_conf : Preset → Text
unfolding generate_postgresql_conf_with_archive
generate_postgresql_conf preset = generate_postgresql_conf_with_archive preset true
