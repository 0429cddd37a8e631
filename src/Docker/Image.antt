-- ===== src/Docker/Image.antt =====
-- docker/image.rs: the texts of the Dockerfiles.
use pg_forge_cli.Base.{ℕ, Text, codes, [], ◌∷◌, ◌++◌}
use pg_forge_cli.Base.Lines.{unlines}
use pg_forge_cli.Base.Decimal.{show_u8}

unfoldable pub dockerfile : ℕ → Text
dockerfile pg_version = unlines (
    (codes "FROM postgres:" ++ show_u8 pg_version ++ codes "-bookworm")
    ∷ []
    ∷ codes "ENV DEBIAN_FRONTEND=noninteractive"
    ∷ []
    ∷ codes "RUN set -eux; \\"
    ∷ codes "    apt-get update; \\"
    ∷ codes "    apt-get install -y --no-install-recommends \\"
    ∷ codes "        pgbackrest cron tini ca-certificates tzdata; \\"
    ∷ codes "    rm -rf /var/lib/apt/lists/*; \\"
    ∷ codes "    mkdir -p /var/spool/pgbackrest /var/log/pgbackrest /etc/pgbackrest; \\"
    ∷ codes
        "    chown -R postgres:postgres /var/spool/pgbackrest /var/log/pgbackrest /etc/pgbackrest"
    ∷ []
    ∷ (codes "# Tag of the image is set at build time by pgforge: pgforge/postgres:"
        ++ show_u8 pg_version)
    ∷ [])

unfoldable pub upgrade_dockerfile : ℕ → ℕ → Text
upgrade_dockerfile from_ver to_ver = unlines (
    (codes "FROM postgres:" ++ show_u8 to_ver ++ codes "-bookworm")
    ∷ []
    ∷ codes "ENV DEBIAN_FRONTEND=noninteractive"
    ∷ []
    ∷ codes "# pgdg apt repo is already configured by the official postgres image, so we"
    ∷ codes "# can install the OLD postgres binaries alongside the NEW image's binaries."
    ∷ codes "RUN set -eux; \\"
    ∷ codes "    apt-get update; \\"
    ∷ codes "    apt-get install -y --no-install-recommends \\"
    ∷ (codes "        postgresql-" ++ show_u8 from_ver ++ codes " \\")
    ∷ codes "        pgbackrest cron tini ca-certificates tzdata; \\"
    ∷ codes "    rm -rf /var/lib/apt/lists/*; \\"
    ∷ codes "    mkdir -p /var/spool/pgbackrest /var/log/pgbackrest /etc/pgbackrest; \\"
    ∷ codes
        "    chown -R postgres:postgres /var/spool/pgbackrest /var/log/pgbackrest /etc/pgbackrest"
    ∷ []
    ∷ (codes "# Tag at build time: pgforge/upgrade:"
        ++ show_u8 from_ver
        ++ codes "-to-"
        ++ show_u8 to_ver)
    ∷ (codes "# Binaries: /usr/lib/postgresql/"
        ++ show_u8 from_ver
        ++ codes "/bin/  +  /usr/lib/postgresql/"
        ++ show_u8 to_ver
        ++ codes "/bin/")
    ∷ [])
