-- ===== src/Docker/Entrypoints.antt =====
-- docker/clone_entrypoint.rs, docker/restore_entrypoint.rs and docker/upgrade_entrypoint.rs: the
-- shell scripts that run in place of an image's entry point.
use pg_forge_cli.Base.{ℕ, Text, codes, List, [], ◌∷◌, ◌++◌, Option, none, some}
use pg_forge_cli.Base.Lines.{unlines}
use pg_forge_cli.Base.Decimal.{show_u8, show_u16}

unfoldable pub generate_clone_entrypoint : Text → ℕ → Text
generate_clone_entrypoint source_container source_port = unlines (
    codes "#!/bin/sh"
    ∷ codes "# Generated by pgforge — do not edit by hand."
    ∷ codes "set -eu"
    ∷ []
    ∷ codes "PGDATA=\"/var/lib/postgresql/data/pgdata\""
    ∷ codes "PGPASSFILE_SRC=\"/var/lib/postgresql/.pgpass\""
    ∷ codes "PGPASSFILE_RUNTIME=\"/tmp/pgforge.pgpass\""
    ∷ codes "MARKER=\"$PGDATA/.pgforge-clone-complete\""
    ∷ []
    ∷ codes "# Make the bind-mounted .pgpass readable by the postgres user regardless of"
    ∷ codes "# whatever UID the host filesystem mapped it as."
    ∷ codes "cp \"$PGPASSFILE_SRC\" \"$PGPASSFILE_RUNTIME\""
    ∷ codes "chmod 0600 \"$PGPASSFILE_RUNTIME\""
    ∷ codes "chown postgres:postgres \"$PGPASSFILE_RUNTIME\""
    ∷ []
    ∷ codes "# Clone only if not already complete. Marker is written AFTER pg_basebackup"
    ∷ codes "# finishes — so a partial/crashed previous attempt leaves no marker, and we"
    ∷ codes "# retry instead of booting on corruption."
    ∷ codes "if [ ! -f \"$MARKER\" ]; then"
    ∷ codes "    # Clear partial state from any prior failed attempt; pg_basebackup"
    ∷ codes "    # refuses a non-empty target directory."
    ∷ codes "    find \"$PGDATA\" -mindepth 1 -delete 2>/dev/null || true"
    ∷ codes "    mkdir -p \"$PGDATA\""
    ∷ codes "    chown -R postgres:postgres \"$PGDATA\""
    ∷ (codes "    su - postgres -c \"PGPASSFILE=$PGPASSFILE_RUNTIME pg_basebackup -h "
        ++ source_container
        ++ codes " -p "
        ++ show_u16 source_port
        ++ codes " -U pgreplica -D $PGDATA -X stream -P --wal-method=stream --no-password\"")
    ∷ codes "    touch \"$MARKER\""
    ∷ codes "    chown postgres:postgres \"$MARKER\""
    ∷ codes "fi"
    ∷ []
    ∷ codes "exec docker-entrypoint.sh postgres \\"
    ∷ codes "    -c config_file=/etc/postgresql/postgresql.conf \\"
    ∷ codes "    -c hba_file=/etc/postgresql/pg_hba.conf"
    ∷ [])

abbrev restore_head : List Text
restore_head =
    codes "#!/bin/sh"
    ∷ codes "# Generated by pgforge — do not edit by hand."
    ∷ codes "set -eu"
    ∷ []
    ∷ codes "PGDATA=\"/var/lib/postgresql/data/pgdata\""
    ∷ codes "MARKER=\"$PGDATA/.pgforge-restore-complete\""
    ∷ []
    ∷ []

abbrev restore_guard : List Text
restore_guard =
    []
    ∷ codes "# Marker is written ONLY after pgbackrest restore returns 0. A failed or"
    ∷ codes "# partial restore leaves PG_VERSION behind in pgdata — without the marker"
    ∷ codes "# we retry instead of booting a broken cluster."
    ∷ codes "if [ ! -f \"$MARKER\" ]; then"
    ∷ codes "    mkdir -p \"$PGDATA\""
    ∷ codes "    chown -R postgres:postgres \"$PGDATA\""
    ∷ codes "    # Clear any half-restored content; pgbackrest restore --delta would also"
    ∷ codes "    # work but we want a strict re-do here."
    ∷ codes "    find \"$PGDATA\" -mindepth 1 -delete 2>/dev/null || true"
    ∷ []

abbrev restore_tail : List Text
restore_tail =
    codes "    touch \"$MARKER\""
    ∷ codes "    chown postgres:postgres \"$MARKER\""
    ∷ codes "fi"
    ∷ []
    ∷ codes "exec docker-entrypoint.sh postgres \\"
    ∷ codes "    -c config_file=/etc/postgresql/postgresql.conf \\"
    ∷ codes "    -c hba_file=/etc/postgresql/pg_hba.conf"
    ∷ []

abbrev target_block : Option Text → Text
target_block none = codes "# Restore to latest WAL — no recovery target; postgres auto-promotes."
target_block (some t) =
    codes "TARGET_ARGS=\"--type=time --target=$PGFORGE_TARGET --target-action=promote\""

abbrev restore_cmd : Option Text → Text
restore_cmd none =
    codes
      "su - postgres -c \"pgbackrest --stanza=main restore --pg1-path=/var/lib/postgresql/data/pgdata\""
restore_cmd (some t) =
    codes
      "su - postgres -c \"PGFORGE_TARGET=$PGFORGE_TARGET pgbackrest --stanza=main restore --pg1-path=/var/lib/postgresql/data/pgdata $TARGET_ARGS\""

-- The target itself reaches the script in its environment.
unfoldable pub generate_restore_entrypoint : Option Text → Text
generate_restore_entrypoint target_time = unlines (
    restore_head
    ++ (target_block target_time ∷ [])
    ++ restore_guard
    ++ ((codes "    " ++ restore_cmd target_time) ∷ [])
    ++ restore_tail)

unfoldable pub generate_upgrade_entrypoint : ℕ → ℕ → Text
generate_upgrade_entrypoint from_ver to_ver = unlines (
    codes "#!/bin/sh"
    ∷ codes "# Generated by pgforge — do not edit by hand."
    ∷ codes "set -eu"
    ∷ []
    ∷ (codes "FROM_BIN=/usr/lib/postgresql/" ++ show_u8 from_ver ++ codes "/bin")
    ∷ (codes "TO_BIN=/usr/lib/postgresql/" ++ show_u8 to_ver ++ codes "/bin")
    ∷ codes "OLD_PGDATA=/old/pgdata"
    ∷ codes "NEW_PGDATA=/new/pgdata"
    ∷ codes "MARKER=\"$NEW_PGDATA/.pgforge-upgrade-complete\""
    ∷ []
    ∷ codes "# Old PGDATA must NOT be in-use (caller stopped and removed the old container"
    ∷ codes "# before scheduling this upgrade). pg_upgrade refuses otherwise."
    ∷ codes "mkdir -p \"$NEW_PGDATA\""
    ∷ codes "chown -R postgres:postgres \"$NEW_PGDATA\""
    ∷ codes "chmod 0700 \"$NEW_PGDATA\""
    ∷ []
    ∷ codes "# 1. Initialize the new cluster with the to-version's binaries."
    ∷ codes
        "su - postgres -c \"$TO_BIN/initdb --pgdata=$NEW_PGDATA --auth-local=trust --auth-host=scram-sha-256 --encoding=UTF8\""
    ∷ []
    ∷ codes "# 2. Run pg_upgrade. Use the postgres user's home for the working dir"
    ∷ codes "# (pg_upgrade writes log files there)."
    ∷ codes "cd /tmp"
    ∷ codes "su - postgres -c \"cd /tmp && $TO_BIN/pg_upgrade \\"
    ∷ codes "    --old-bindir=$FROM_BIN \\"
    ∷ codes "    --new-bindir=$TO_BIN \\"
    ∷ codes "    --old-datadir=$OLD_PGDATA \\"
    ∷ codes "    --new-datadir=$NEW_PGDATA\""
    ∷ []
    ∷ codes "# 3. Write success marker."
    ∷ codes "touch \"$MARKER\""
    ∷ codes "chown postgres:postgres \"$MARKER\""
    ∷ codes "echo \"pgforge-upgrade-ok\""
    ∷ [])
