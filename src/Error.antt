-- ===== src/Error.antt =====
-- error.rs. A message built by `format!` stands for its format string and arguments: one
-- constructor of `Fault` for each place that makes one.
use pg_forge_cli.Base.{ℕ, Text, ◌≡◌, ◌⊎◌, refl, inl, inr}
use pg_forge_cli.Base.Int.{ℤ}
use pg_forge_cli.Domain.Preset.{Preset}

pub data Fault : Type 0 where
  snapshot_hour_range : ℕ → Fault
  full_backup_day_range : ℕ → Fault
  no_backup_instance : Text → Fault
  container_not_running : Text → Fault
  backup_failed : ℤ → Text → Fault
  label_not_found : Text → Fault
  stanza_needs_container : Text → Fault
  stanza_delete_failed : ℤ → Fault
  already_on_preset : Text → Preset → Fault
  password_required : Fault
  s3_missing : Fault
  s3_missing_for : Text → Fault
  source_without_backups : Text → Fault
  source_not_running : Text → Text → Fault
  stanza_create_failed : ℤ → Text → Text → Fault
  clone_stanza_failed : ℤ → Text → Text → Fault
  ensure_pgreplica_failed : ℤ → Text → Text → Fault
  reload_failed : ℤ → Text → Fault
  not_an_upgrade : ℕ → ℕ → Fault
  upgrade_failed : ℤ → Text → Text → Text → Fault
  crashed_before_ready : Text → Fault
  not_ready_within : Text → ℕ → Fault
  bad_target_time : Text → Fault
  still_in_recovery : Text → ℕ → Fault
  dump_needs_running : Text → Fault
  home_not_set : Fault
  dump_exists : Text → Fault
  low_dump_space : ℕ → Fault
  dump_timed_out : ℕ → Fault
  pg_dump_not_found : Text → Fault
  pg_dump_failed : ℤ → Text → Fault
  truncated_dump : Text → Fault
  pgbackrest_info_failed : ℤ → Text → Fault

pub data PgForgeError : Type 0 where
  instance_exists : Text → PgForgeError
  instance_not_found : Text → PgForgeError
  invalid_instance_name : Text → PgForgeError
  no_free_port : ℕ → ℕ → PgForgeError
  config_malformed : PgForgeError
  docker : Fault → PgForgeError
  io : PgForgeError
  anyhow : Fault → PgForgeError

pub data Result {ℓ} (A : Type ℓ) : Type ℓ where
  ok : A → Result A
  err : PgForgeError → Result A

infixl 10 ◌>>=◌ ◌>>◌
abbrev pub ◌>>=◌ {ℓ κ} : {A : Type ℓ} {B : Type κ} → Result A → (A → Result B) → Result B
ok a >>= f = f a
err e >>= f = err e

abbrev pub ◌>>◌ {ℓ} : {B : Type ℓ} → Result (Unit {0}) → Result B → Result B
ok _ >> k = k
err e >> k = err e

pub Result-cases : (r : Result (Unit {0})) → (r ≡ ok tt) ⊎ ((e : PgForgeError) × (r ≡ err e))
Result-cases (ok u) = inl refl
Result-cases (err e) = inr (e, refl)
