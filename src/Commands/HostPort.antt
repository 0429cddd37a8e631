-- ===== src/Commands/HostPort.antt =====
-- The port that `allocate_host_port` answers is of no instance that loads.
use mathlib.Core.Bool.{false≢true}
use pg_forge_cli.Base.{inl, inr, ap, ◌∙◌}
use pg_forge_cli.Base.{
  ℕ, Bool, Bool-cases, sym, if◌then◌else◌, true, false, ◌≡◌, ◌≢◌, refl, Text, text_eq, text_eq_iff,
  List, [], ◌∷◌, Option, none, some, any, contains, arith,
}
use pg_forge_cli.Base.Dict.{Dict, lookup, keys}
use pg_forge_cli.Error.{Result, ok, err, io, ◌>>◌, ◌>>=◌}
use pg_forge_cli.Config.{GlobalConfig}
use pg_forge_cli.Domain.Instance.{validate_name}
use pg_forge_cli.Ports.{is_taken, allocate_port, allocate_port-untaken}
use pg_forge_cli.State.Store.{
  Disk, InstanceDir, InstanceState, or_empty, read_state, load_under, list_under,
}
use pg_forge_cli.Commands.Host.{ports_of, port_onto, taken_ports, allocate_host_port}

lookup-contains {ℓ} :
    {V : Type ℓ} (k : Text) (v : V) (d : Dict V) → lookup k d ≡ some v → contains (keys d) k ≡ true
unfolding lookup keys contains
lookup-contains k v [] h = ground (arith, h)
lookup-contains k v ((j, w) ∷ d) h = ground (arith, h, lookup-contains k v d)

taken_onto :
    (r : Result InstanceState) (ports : List ℕ) (p : ℕ)
    → is_taken ports p ≡ true
    → is_taken (port_onto r ports) p ≡ true
unfolding any
taken_onto (ok s) ports p h = ground (arith, h)
taken_onto (err e) ports p h = h

taken_here :
    (r : Result InstanceState) (t : InstanceState) (ports : List ℕ)
    → r ≡ ok t
    → is_taken (port_onto r ports) t.instance.host_port ≡ true
unfolding any
taken_here (ok s) t ports h = ground (arith, h)
taken_here (err e) t ports h = ground (arith, h)

-- The port of an instance that is listed and loads is taken.
ports_of-taken :
    (disk : Disk) (names : List Text) (n : Text) (t : InstanceState)
    → contains names n ≡ true
    → load_under disk n ≡ ok t
    → is_taken (ports_of disk names) t.instance.host_port ≡ true
unfolding ports_of contains
ports_of-taken disk [] n t h l = ground (arith, h)
ports_of-taken disk (m ∷ names) n t h l = elim (Bool-cases (text_eq m n)) [
  | inl here ↦
      taken_here (load_under disk m) t (ports_of disk names)
        (ap (load_under disk) ((text_eq_iff m n).0 here) ∙ l)
  | inr later ↦
      taken_onto (load_under disk m) (ports_of disk names) t.instance.host_port
        (ports_of-taken disk names n t (ground (arith, h, later)) l)
]

-- An instance that loads has a directory.
listed_if_loads :
    (disk : Disk) (n : Text) (t : InstanceState)
    → load_under disk n ≡ ok t
    → contains (keys disk.dirs) n ≡ true
unfolding load_under
listed_if_loads disk n t h = found (lookup n disk.dirs) refl h
  where
    found :
        (o : Option InstanceDir)
        → lookup n disk.dirs ≡ o
        → (validate_name n >> read_state n (or_empty o).state) ≡ ok t
        → contains (keys disk.dirs) n ≡ true
    found none e l = ground (arith, l)
    found (some d) e l = lookup-contains n d disk.dirs e

taken_by :
    (disk : Disk) (n : Text) (t : InstanceState)
    → load_under disk n ≡ ok t
    → is_taken (ports_of disk (keys disk.dirs)) t.instance.host_port ≡ true
taken_by disk n t l = ports_of-taken disk (keys disk.dirs) n t (listed_if_loads disk n t l) l

-- The port that is allocated is not one of an instance that loads.
pub allocate_host_port-unshared :
    (global : GlobalConfig) (probe : ℕ → Bool) (disk : Disk) (p : ℕ) (n : Text) (t : InstanceState)
    → allocate_host_port global probe disk ≡ ok p
    → load_under disk n ≡ ok t
    → p ≢ t.instance.host_port
unfolding allocate_host_port taken_ports list_under
allocate_host_port-unshared global probe disk p n t h l = listed disk.can_list h
  where
    listed :
        (b : Bool)
        → ((if b then ok (keys disk.dirs) else err io)
            >>= (λ names. ok (ports_of disk names))
            >>= λ taken. allocate_port taken probe global.port_range_start global.port_range_end)
          ≡ ok p
        → p ≢ t.instance.host_port
    listed true e same = false≢true (
        sym (allocate_port-untaken (ports_of disk (keys disk.dirs)) probe _ _ p e)
        ∙ ap (is_taken (ports_of disk (keys disk.dirs))) same
        ∙ taken_by disk n t l)
    listed false e same = cc
