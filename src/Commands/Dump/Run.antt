-- ===== src/Commands/Dump/Run.antt =====
-- commands/dump.rs, `run_with_engine`: the dump directory is its files by name, with their bytes.
-- Only one directory is touched, that of the dump, since the partial file, the final one, the
-- sweep and the retention are all in it. Messages to the user and the sizes in them are left out.
pub mod Commit
use pg_forge_cli.Base.{
  ℕ, Bool, true, false, not, ◌&&◌, Text, codes, List, [], ◌∷◌, ◌++◌, Option, none, some, take,
  contains, select, ◌==◌, if◌then◌else◌,
}
use pg_forge_cli.Base.Int.{ℤ, pos, negsuc, is_zero}
use pg_forge_cli.Base.Dict.{Dict, lookup, insert, erase, keys}
use pg_forge_cli.Base.Lines.{trim}
use pg_forge_cli.Error.{
  Result, ok, err, io, docker, anyhow, dump_needs_running, home_not_set, dump_exists,
  dump_timed_out, pg_dump_not_found, pg_dump_failed, truncated_dump, ◌>>=◌, ◌>>◌,
}
use pg_forge_cli.Domain.Instance.{Instance, validate_name}
use pg_forge_cli.State.Store.{Disk, load_under}
use pg_forge_cli.Docker.Engine.{Engine, ExecToFileOutput, Streamed}
use pg_forge_cli.Commands.Host.{container_named}
use pg_forge_cli.Commands.Dump.{resolve_dump_path, is_valid_custom_dump, dumps_to_prune, is_dump_of}
use pg_forge_cli.Commands.Dump.Space.{parse_df_available_kb, check_space}
use pg_forge_cli.Commands.Dump.Paths.{parent_of, name_of, with_extension, has_partial_extension}

abbrev pub Dir : Type 0
Dir = Dict Text

pub record DumpArgs : Type 0 where
  pub name : Text
  pub out : Option Text
  pub force : Bool
  pub keep : Option ℕ
  pub timeout_secs : ℕ

-- What the operating system answers. `is_stale` says that a file was last changed more than a day
-- ago, `df` is the standard output of the command.
pub record Os : Type 0 where
  pub home : Option Text
  pub pid : Text
  pub now_iso : Text
  pub create_secret_dir : Text → Result (Unit {0})
  pub create_dir_all : Text → Result (Unit {0})
  pub df : Text → Result Text
  pub can_list : Bool
  pub is_stale : Text → Bool
  pub can_read : Text → Bool
  pub can_remove : Text → Bool
  pub rename : Text → Text → Result (Unit {0})
  pub fsync_dir : Text → Result (Unit {0})

abbrev default_dump_dir : Option Text → Result Text
default_dump_dir none = err (anyhow home_not_set)
default_dump_dir (some home) = ok (home ++ codes "/pgforge-dumps")

abbrev make_dump_dir : Os → Option Text → Result Text
make_dump_dir os (some out) = os.create_dir_all (parent_of out) >> ok (parent_of out)
make_dump_dir os none = default_dump_dir os.home >>= λ dir. os.create_secret_dir dir >> ok dir

abbrev require : Bool → Result (Unit {0}) → Result (Unit {0})
require true e = ok tt
require false e = e

abbrev dump_is_there : Text → Dir → Bool
dump_is_there name d = elim (lookup name d) [ none ↦ false | some bytes ↦ true ]

-- What is known before the dump starts.
pub record Plan : Type 0 where
  pub instance : Instance
  pub dump_dir : Text
  pub final_path : Text

-- Up to the check of the free space.
unfoldable pub plan : Os → Engine → DumpArgs → Disk → Dir → Result Plan
unfolding parse_df_available_kb
plan os engine args disk d = validate_name args.name >> load_under disk args.name >>= λ st.
    engine.container_running [] (container_named st.instance.name) >>= λ up.
    require up (err (anyhow (dump_needs_running args.name))) >> make_dump_dir os args.out >>= λ dir.
    let path = resolve_dump_path args.out st.instance.name dir os.now_iso in
    require (not (dump_is_there (name_of path) d && not args.force))
      (err (anyhow (dump_exists path)))
    >> os.df dir
    >>= λ out.
        check_space (parse_df_available_kb out)
        >> ok (record { instance = st.instance; dump_dir = dir; final_path = path })

unfoldable pub sweep_stale_partials : Os → Dir → Dir
sweep_stale_partials os d =
    if os.can_list
    then select (λ f. not (has_partial_extension f.0 && (os.is_stale f.0 && os.can_remove f.0))) d
    else d

abbrev pub final_name : Plan → Text
final_name p = name_of p.final_path

abbrev pub partial_name : Os → Plan → Text
partial_name os p = with_extension (final_name p) (os.pid ++ codes ".partial")

abbrev pg_dump_argv : Instance → List Text
pg_dump_argv i =
    codes "pg_dump"
    ∷ codes "-Fc"
    ∷ codes "-U"
    ∷ i.app_user
    ∷ codes "-h"
    ∷ codes "/var/run/postgresql"
    ∷ i.db_name
    ∷ []

-- A file that is there is left alone, and is an error.
unfoldable pub stream : Text → Streamed → Dir → Dir × Option (Result ExecToFileOutput)
stream partial s d = elim (lookup partial d) [
  | none ↦ elim s.written [
    | none ↦ (d, s.outcome)
    | some bytes ↦ (insert partial bytes d, s.outcome)
  ]
  | some bytes ↦ (d, some (err io))
]

abbrev is_127 : ℤ → Bool
is_127 (pos n) = n == 127
is_127 (negsuc n) = false

abbrev check_dump_exit : Text → ExecToFileOutput → Result (Unit {0})
check_dump_exit name out =
    if is_127 out.exit_code
    then err (docker (pg_dump_not_found name))
    else if is_zero out.exit_code
    then ok tt
    else err (docker (pg_dump_failed out.exit_code (trim out.stderr)))

abbrev pub check_streamed : DumpArgs → Option (Result ExecToFileOutput) → Result (Unit {0})
check_streamed args none = err (docker (dump_timed_out args.timeout_secs))
check_streamed args (some outcome) = outcome >>= check_dump_exit args.name

-- The header of the partial file; a file that cannot be read has none.
unfoldable pub has_dump_header : Os → Text → Dir → Bool
has_dump_header os partial d = elim (lookup partial d) [
  | none ↦ false
  | some bytes ↦ os.can_read partial && is_valid_custom_dump (take 5 bytes)
]

abbrev pub moved : Text → Text → Dir → Dir
moved from to d = elim (lookup from d) [ none ↦ d | some bytes ↦ insert to bytes (erase from d) ]

abbrev pub renamed : Os → Plan → Dir → Result (Unit {0}) → Dir × Result Text
renamed os p d (ok _) =
    (moved (partial_name os p) (final_name p) d, os.fsync_dir p.dump_dir >> ok p.final_path)
renamed os p d (err e) = (d, err e)

unfoldable pub commit : Os → DumpArgs → Plan → Dir → Dir × Result Text
commit os args p d =
    if has_dump_header os (partial_name os p) d
    then renamed os p d (os.rename (partial_name os p) (final_name p))
    else (d, err (anyhow (truncated_dump args.name)))

abbrev pub commit_if : Os → DumpArgs → Plan → Dir → Result (Unit {0}) → Dir × Result Text
commit_if os args p d (ok _) = commit os args p d
commit_if os args p d (err e) = (d, err e)

-- The partial file's guard goes off unless the dump is committed.
unfoldable pub guard_partial : Os → Text → Dir × Result Text → Dir × Result Text
guard_partial os partial (d, ok path) = (d, ok path)
guard_partial os partial (d, err e) = (if os.can_remove partial then erase partial d else d, err e)

abbrev pub commit_checked :
    Os → DumpArgs → Plan → Dir × Option (Result ExecToFileOutput) → Dir × Result Text
commit_checked os args p (d, outcome) = commit_if os args p d (check_streamed args outcome)

unfoldable pub dump_partial : Os → Engine → DumpArgs → Plan → Dir → Dir × Result Text
dump_partial os engine args p d = commit_checked os args p (
    stream (partial_name os p)
      (engine.exec_to_file [] (container_named p.instance.name) (pg_dump_argv p.instance)) d)

-- `apply_retention`, of a directory with bytes.
unfoldable pub retain : Os → Text → ℕ → Dir → Dir
retain os instance n d =
    let pruned = dumps_to_prune (select (is_dump_of instance) (keys d)) n in
    if os.can_list then select (λ f. not (contains pruned f.0 && os.can_remove f.0)) d else d

abbrev retained : Os → Option ℕ → Text → Dir × Result Text → Dir × Result Text
retained os (some n) instance (d, ok path) = (retain os instance n d, ok path)
retained os none instance r = r
retained os (some n) instance (d, err e) = (d, err e)

abbrev pub carried_out : Os → Engine → DumpArgs → Dir → Result Plan → Dir × Result Text
carried_out os engine args d (err e) = (d, err e)
carried_out os engine args d (ok p) = retained os args.keep p.instance.name (
    guard_partial os (partial_name os p)
      (dump_partial os engine args p (sweep_stale_partials os d)))

unfoldable pub dump_with_engine : Os → Engine → DumpArgs → Disk → Dir → Dir × Result Text
dump_with_engine os engine args disk d = carried_out os engine args d (plan os engine args disk d)
