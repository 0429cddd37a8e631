-- ===== src/Pgbackrest/Conf.antt =====
-- pgbackrest/conf.rs: the text of pgbackrest.conf.
use pg_forge_cli.Base.{ℕ, zero, suc, Text, codes, List, [], ◌∷◌, ◌++◌}
use pg_forge_cli.Base.Lines.{unlines}
use pg_forge_cli.Base.Decimal.{show_u32}

pub record S3Settings : Type 0 where
  pub bucket : Text
  pub region : Text
  pub endpoint : Text
  pub access_key : Text
  pub secret_key : Text

-- The block ends with an empty line.
abbrev retention_block : ℕ → List Text
retention_block zero =
    codes "# Retention disabled (retain_days = 0): full backups kept forever." ∷ [] ∷ []
retention_block (suc d) =
    (codes "repo1-retention-full=" ++ show_u32 (suc d))
    ∷ codes "repo1-retention-full-type=time"
    ∷ []
    ∷ []

abbrev repository_block : Text → S3Settings → List Text
repository_block instance_name s3 =
    codes "# Generated by pgforge — do not edit by hand."
    ∷ []
    ∷ codes "[global]"
    ∷ codes "# --- Repository: S3 ---------------------------------------------------------"
    ∷ codes "repo1-type=s3"
    ∷ (codes "repo1-s3-bucket=" ++ s3.bucket)
    ∷ (codes "repo1-s3-region=" ++ s3.region)
    ∷ (codes "repo1-s3-endpoint=" ++ s3.endpoint)
    ∷ (codes "repo1-s3-key=" ++ s3.access_key)
    ∷ (codes "repo1-s3-key-secret=" ++ s3.secret_key)
    ∷ codes "repo1-s3-uri-style=host"
    ∷ (codes "repo1-path=/pgforge/" ++ instance_name)
    ∷ codes "repo1-cipher-type=none"
    ∷ codes "repo1-storage-verify-tls=y"
    ∷ []
    ∷ codes "# --- Retention --------------------------------------------------------------"
    ∷ []

abbrev service_block : List Text
service_block =
    codes "# --- Performance / archiving ------------------------------------------------"
    ∷ codes "compress-type=zst"
    ∷ codes "compress-level=3"
    ∷ codes "process-max=4"
    ∷ codes "archive-async=y"
    ∷ codes "spool-path=/var/spool/pgbackrest"
    ∷ codes "start-fast=y"
    ∷ codes "stop-auto=y"
    ∷ []
    ∷ codes "# --- Logging ----------------------------------------------------------------"
    ∷ codes "log-path=/var/log/pgbackrest"
    ∷ codes "log-level-console=info"
    ∷ codes "log-level-file=detail"
    ∷ []
    ∷ codes "[global:archive-push]"
    ∷ codes "process-max=2"
    ∷ []
    ∷ codes "[main]"
    ∷ codes "pg1-path=/var/lib/postgresql/data/pgdata"
    ∷ codes "pg1-port=5432"
    ∷ codes "pg1-user=pgbackrest"
    ∷ codes "pg1-database=postgres"
    ∷ codes "pg1-socket-path=/var/run/postgresql"
    ∷ []

unfoldable pub generate_pgbackrest_conf : Text → S3Settings → ℕ → Text
generate_pgbackrest_conf instance_name s3 retain_days =
    unlines (repository_block instance_name s3 ++ retention_block retain_days ++ service_block)
