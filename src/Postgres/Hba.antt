-- ===== src/Postgres/Hba.antt =====
-- postgres/hba.rs: the text of pg_hba.conf.
use pg_forge_cli.Base.{Text, codes, List, [], ◌∷◌, ◌++◌}
use pg_forge_cli.Base.Lines.{unlines}

-- The lines that `generate_pg_hba` writes
unfoldable pub hba_lines : Text → Text → List Text
hba_lines db_name app_user =
    codes "# Generated by pgforge — do not edit by hand."
    ∷ codes "# TYPE  DATABASE        USER            ADDRESS                 METHOD"
    ∷ []
    ∷ codes "# Local unix socket — superuser app user trusted for admin tasks via docker exec."
    ∷ (codes "local   all             "
        ++ app_user
        ++ codes "                                   trust")
    ∷ []
    ∷ codes "# pgBackRest runs as postgres OS user inside this container; trust over the"
    ∷ codes "# local socket avoids needing a .pgpass file for archive-push."
    ∷ codes "local   replication     pgbackrest                              trust"
    ∷ codes "local   all             pgbackrest                              trust"
    ∷ []
    ∷ codes "# Clone via pg_basebackup from a sibling container over the docker bridge"
    ∷ codes "# network. The replication role is non-SUPERUSER (see init_sql.rs) so even"
    ∷ codes "# if its password leaks the blast radius is limited to streaming WAL."
    ∷ codes "host    replication     pgreplica       samenet                 scram-sha-256"
    ∷ []
    ∷ codes "# App user — reachable from any address (host docker binding is 0.0.0.0),"
    ∷ codes "# scram-sha-256 password required. Combined with hosting on a single"
    ∷ codes "# LAN behind a NAT, this is the same posture as RDS in a private VPC."
    ∷ (codes "host    "
        ++ db_name
        ++ codes "             "
        ++ app_user
        ++ codes "            all                     scram-sha-256")
    ∷ []
    ∷ codes "# Default-deny everything else."
    ∷ codes "host    all             all             all                     reject"
    ∷ []

unfoldable pub generate_pg_hba : Text → Text → Text
unfolding hba_lines
generate_pg_hba db_name app_user = unlines (hba_lines db_name app_user)
