-- ===== src/Commands/Host.antt =====
-- What the commands find on the host: the global configuration, the connection to the engine, the
-- ports that can be bound, and the time. `run` of a command reads it, `run_with_engine` is given it.
use pg_forge_cli.Base.{ℕ, Bool, List, [], ◌∷◌, Text, codes, ◌++◌}
use pg_forge_cli.Error.{Result, ok, err, ◌>>=◌}
use pg_forge_cli.Config.{GlobalConfig}
use pg_forge_cli.Ports.{allocate_port}
use pg_forge_cli.State.Store.{Disk, InstanceState, load_under, list_under}
use pg_forge_cli.Docker.Engine.{Engine}

pub record Host : Type 0 where
  pub global : Result GlobalConfig
  pub connect : Result Engine
  pub probe : ℕ → Bool
  pub now_iso : Text

-- `format!("pgforge_{}", name)` and `format!("pgforge_data_{}", name)`
abbrev pub container_named : Text → Text
container_named name = codes "pgforge_" ++ name

abbrev pub volume_named : Text → Text
volume_named name = codes "pgforge_data_" ++ name

abbrev pub port_onto : Result InstanceState → List ℕ → List ℕ
port_onto (ok s) ports = s.instance.host_port ∷ ports
port_onto (err e) ports = ports

-- An instance that does not load is passed over.
unfoldable pub ports_of : Disk → List Text → List ℕ
ports_of disk [] = []
ports_of disk (name ∷ names) = port_onto (load_under disk name) (ports_of disk names)

unfoldable pub taken_ports : Disk → Result (List ℕ)
unfolding ports_of
taken_ports disk = list_under disk >>= λ names. ok (ports_of disk names)

unfoldable pub allocate_host_port : GlobalConfig → (ℕ → Bool) → Disk → Result ℕ
unfolding taken_ports
allocate_host_port global probe disk = taken_ports disk >>= λ taken.
    allocate_port taken probe global.port_range_start global.port_range_end
