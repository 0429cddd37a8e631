-- ===== src/Docker/Engine.antt =====
-- docker/engine.rs, the trait `DockerEngine`: a record of its answers, which may depend on all that
-- was called before. A command is a function of the world: the state root and the calls so far.
pub mod Preserves
use pg_forge_cli.Base.{ℕ, Bool, true, false, Text, List, ◌∷◌, Option, none, some}
use pg_forge_cli.Base.Dict.{Dict}
use pg_forge_cli.Base.Int.{ℤ}
use pg_forge_cli.Error.{PgForgeError, Result, ok, err}
use pg_forge_cli.State.Store.{Disk, DiskStep}

pub record ExecToFileOutput : Type 0 where
  pub exit_code : ℤ
  pub stderr : Text

-- What a streamed command has written to its new file, if it came to make it, and how it ended;
-- `none` if the caller's timeout came first.
pub record Streamed : Type 0 where
  pub written : Option Text
  pub outcome : Option (Result ExecToFileOutput)

pub record ExecOutput : Type 0 where
  pub stdout : Text
  pub stderr : Text
  pub exit_code : ℤ

pub record BindMount : Type 0 where
  pub host_path : Text
  pub container_path : Text
  pub read_only : Bool

-- `no_restart` is `No`.
pub data RestartPolicy : Type 0 where
  unless_stopped no_restart : RestartPolicy

pub record NamedVolume : Type 0 where
  pub volume_name : Text
  pub container_path : Text

pub record CreateContainerSpec : Type 0 where
  pub container_name : Text
  pub image : Text
  pub env : Dict Text
  pub binds : List BindMount
  pub volumes : List NamedVolume
  pub host_port : ℕ
  pub container_port : ℕ
  pub memory_mb : ℕ
  pub network : Text
  pub shm_size_mb : ℕ
  pub entrypoint_override : Option (List Text)
  pub cmd_override : Option (List Text)
  pub restart_policy : RestartPolicy

pub record BuildImageSpec : Type 0 where
  pub tag : Text
  pub dockerfile : Text

-- A call that changes something or takes time, whether it succeeds or not, or a sleep in
-- milliseconds. An `exec` has the exit code that came back, if one did; one with text on its
-- standard input has the text too.
pub data Step : Type 0 where
  executed : Text → List Text → Option ℤ → Step
  piped : Text → List Text → Text → Option ℤ → Step
  stopping removing_container removing_volume starting awaiting_running awaiting_exit : Text → Step
  building : BuildImageSpec → Step
  networking : Text → Step
  creating : CreateContainerSpec → Step
  sleeping : ℕ → Step

-- The newest call is the head. `clock` is the instant after the calls, in milliseconds, and
-- `to_string` the text of an error.
pub record Engine : Type 0 where
  pub container_running : List Step → Text → Result Bool
  pub container_exists : List Step → Text → Result Bool
  pub exec : List Step → Text → List Text → Result ExecOutput
  pub exec_as : List Step → Text → Text → List Text → Result ExecOutput
  pub stop_container : List Step → Text → Result (Unit {0})
  pub remove_container : List Step → Text → Result (Unit {0})
  pub remove_volume : List Step → Text → Result (Unit {0})
  pub build_image : List Step → BuildImageSpec → Result (Unit {0})
  pub ensure_network : List Step → Text → Result (Unit {0})
  pub create_container : List Step → CreateContainerSpec → Result Text
  pub start_container : List Step → Text → Result (Unit {0})
  pub exec_with_stdin : List Step → Text → List Text → Text → Result ExecOutput
  pub exec_to_file : List Step → Text → List Text → Streamed
  pub wait_for_container_running : List Step → Text → ℕ → Result (Unit {0})
  pub wait_for_container_exit : List Step → Text → ℕ → Result ℤ
  pub logs : List Step → Text → Result Text
  pub clock : List Step → ℕ
  pub to_string : PgForgeError → Text

pub record World : Type 0 where
  pub disk : Disk
  pub steps : List Step

abbrev pub Action {ℓ} : Type ℓ → Type ℓ
Action A = World → Result A × World

abbrev pub continue {ℓ κ} :
    {A : Type ℓ} {B : Type κ} → Result A × World → (A → Action B) → Result B × World
continue (ok a, w) f = f a w
continue (err e, w) f = (err e, w)

infixl 10 ◌>>=◌ ◌>>◌
abbrev pub ◌>>=◌ {ℓ κ} : {A : Type ℓ} {B : Type κ} → Action A → (A → Action B) → Action B
(m >>= f) w = continue (m w) f

abbrev pub ◌>>◌ {ℓ κ} : {A : Type ℓ} {B : Type κ} → Action A → Action B → Action B
m >> k = m >>= (λ _. k)

abbrev pub done {ℓ} : {A : Type ℓ} → A → Action A
done a w = (ok a, w)

abbrev pub fail {ℓ} : {A : Type ℓ} → PgForgeError → Action A
fail e w = (err e, w)

abbrev pub skip : Action (Unit {0})
skip = done tt

-- A fallible read of the state root.
abbrev pub reading {ℓ} : {A : Type ℓ} → (Disk → Result A) → Action A
reading f w = (f w.disk, w)

-- A fallible write of the state root.
abbrev pub writing {ℓ} : {A : Type ℓ} → (Disk → DiskStep A) → Action A
writing f w = ((f w.disk).0, record w { disk = (f w.disk).1 })

-- A question to the engine, which changes nothing.
abbrev pub ask {ℓ} : {A : Type ℓ} → (List Step → Result A) → Action A
ask f w = (f w.steps, w)

abbrev pub log {ℓ} : {A : Type ℓ} → Step → (List Step → Result A) → Action A
log st f w = (f w.steps, record w { steps = st ∷ w.steps })

abbrev pub exit_of : Result ExecOutput → Option ℤ
exit_of (ok out) = some out.exit_code
exit_of (err e) = none

abbrev pub running_exec : Text → List Text → (List Step → Result ExecOutput) → Action ExecOutput
running_exec container argv f w =
    (f w.steps, record w { steps = executed container argv (exit_of (f w.steps)) ∷ w.steps })

abbrev pub only_if : Bool → Action (Unit {0}) → Action (Unit {0})
only_if true m = m
only_if false m = skip

abbrev pub running_piped :
    Text → List Text → Text → (List Step → Result ExecOutput) → Action ExecOutput
running_piped container argv stdin f w =
    (f w.steps, record w { steps = piped container argv stdin (exit_of (f w.steps)) ∷ w.steps })

abbrev pub sleep : ℕ → Action (Unit {0})
sleep ms w = (ok tt, record w { steps = sleeping ms ∷ w.steps })

-- `let _ = m;`, or only a warning on its error
abbrev pub ignore {ℓ} : {A : Type ℓ} → Action A → Action (Unit {0})
ignore m w = (ok tt, (m w).1)

abbrev pub rescued {ℓ} :
    {A : Type ℓ} → Result A × World → (PgForgeError → Action A) → Result A × World
rescued (ok a, w) f = (ok a, w)
rescued (err e, w) f = f e w

-- The `Err` branch of a match on what `m` answers
abbrev pub rescue {ℓ} : {A : Type ℓ} → Action A → (PgForgeError → Action A) → Action A
rescue m f w = rescued (m w) f
