-- ===== src/Commands/Dump/Run/Commit.antt =====
-- What a dump leaves in its directory.
use pg_forge_cli.Base.{
  ◌≡◌, refl, ◌∙◌, Bool, true, false, Text, text_eq, text_eq_iff, [], ◌∷◌, none, some, take, select,
  arith, Bool-cases, Option-cases, inl, inr,
}
use pg_forge_cli.Base.Dict.{lookup, erase, lookup-insert, lookup-erase}
use pg_forge_cli.Error.{Result, ok, err}
use pg_forge_cli.State.Store.{Disk}
use pg_forge_cli.Docker.Engine.{Engine, Streamed}
use pg_forge_cli.Commands.Dump.{is_valid_custom_dump}
use pg_forge_cli.Commands.Dump.Paths.{is_file_name, has_partial_extension}
use pg_forge_cli.Commands.Dump.Paths.Partial.{with_extension-untaken}
use pg_forge_cli.Commands.Dump.Run.{
  Dir, DumpArgs, Os, Plan, plan, final_name, partial_name, sweep_stale_partials, stream,
  has_dump_header, moved, renamed, commit, commit_if, guard_partial, dump_partial, dump_with_engine,
}

-- After a success the final file is a dump; after a failure it is what it was. No partial file is
-- left either way.
abbrev pub Dumped : Text → Text → Dir → Dir × Result Text → Type 0
Dumped final partial d (d', ok path) =
    ((bytes : Text) × ((lookup final d' ≡ some bytes)
        × (is_valid_custom_dump (take 5 bytes) ≡ true)))
    × (lookup partial d' ≡ none)
Dumped final partial d (d', err e) = (lookup final d' ≡ lookup final d) × (lookup partial d' ≡ none)

-- The same before the guard, which removes the partial file of a failure.
abbrev Unguarded : Text → Text → Dir → Dir × Result Text → Type 0
Unguarded final partial d (d', ok path) = Dumped final partial d (d', ok path)
Unguarded final partial d (d', err e) = lookup final d' ≡ lookup final d

lookup-select :
    (k : Text) (p : Text × Text → Bool) (d : Dir)
    → ((v : Text) → p (k, v) ≡ true)
    → lookup k (select p d) ≡ lookup k d
unfolding lookup select
lookup-select k p [] kept = refl
lookup-select k p ((j, v) ∷ d) kept = elim (Bool-cases (text_eq j k)) [
  | inl same ↦ ground (arith, same, kept v, (text_eq_iff j k).0 same)
  | inr other ↦ ground (arith, other, lookup-select k p d kept)
]

-- A final file that is no partial one outlives the sweep.
lookup-sweep_stale_partials :
    (os : Os) (k : Text) (d : Dir)
    → has_partial_extension k ≡ false
    → lookup k (sweep_stale_partials os d) ≡ lookup k d
unfolding sweep_stale_partials
lookup-sweep_stale_partials os k d whole = elim (Bool-cases os.can_list) [
  | inl can ↦ rw can (lookup-select k _ d (λ v. ground (arith, whole)))
  | inr cannot ↦ rw cannot refl
]

lookup-stream :
    (k partial : Text) (s : Streamed) (d : Dir)
    → text_eq partial k ≡ false
    → lookup k ((stream partial s d).0) ≡ lookup k d
unfolding stream
lookup-stream k partial s d apart = elim (Option-cases (lookup partial d)) [
  | inl absent ↦ elim (Option-cases s.written) [
    | inl nothing ↦ ground (arith, absent, nothing)
    | inr (bytes, wrote) ↦ ground (arith, absent, wrote, apart, lookup-insert k partial bytes d)
  ]
  | inr (bytes, at) ↦ ground (arith, at)
]

guard_partial-Dumped :
    (os : Os) (final partial : Text) (d : Dir) (r : Dir × Result Text)
    → os.can_remove partial ≡ true
    → text_eq partial final ≡ false
    → Unguarded final partial d r
    → Dumped final partial d (guard_partial os partial r)
unfolding guard_partial
guard_partial-Dumped os final partial d (d', ok path) can apart h = h
guard_partial-Dumped os final partial d (d', err e) can apart h = rw can (
  ground (arith, lookup-erase final partial d', h, apart),
  ground (arith, lookup-erase partial partial d', text_eq_iff partial partial),
)

header-lookup :
    (os : Os) (partial : Text) (d : Dir)
    → has_dump_header os partial d ≡ true
    → (bytes : Text) × ((lookup partial d ≡ some bytes)
        × (is_valid_custom_dump (take 5 bytes) ≡ true))
unfolding has_dump_header
header-lookup os partial d valid = elim (Option-cases (lookup partial d)) [
  | inl absent ↦ ground (arith, valid, absent)
  | inr (bytes, at) ↦ (bytes, (at, ground (arith, valid, at)))
]

moved-Dumped :
    (final partial path bytes : Text) (d d' : Dir)
    → text_eq partial final ≡ false
    → lookup partial d' ≡ some bytes
    → is_valid_custom_dump (take 5 bytes) ≡ true
    → Dumped final partial d (moved partial final d', ok path)
moved-Dumped final partial path bytes d d' apart at valid =
    rw (at, moved)
      (
        (
          bytes,
          (
            ground (
              arith,
              lookup-insert final final bytes (erase partial d'),
              text_eq_iff final final,
            ),
            valid,
          ),
        ),
        ground (
          arith,
          lookup-insert partial final bytes (erase partial d'),
          lookup-erase partial partial d',
          text_eq_iff partial partial,
          text_eq_iff final partial,
          text_eq_iff partial final,
          apart,
        ),
      )

renamed-Unguarded :
    (os : Os) (p : Plan) (d d' : Dir) (answer : Result (Unit {0}))
    → os.fsync_dir p.dump_dir ≡ ok tt
    → text_eq (partial_name os p) (final_name p) ≡ false
    → has_dump_header os (partial_name os p) d' ≡ true
    → lookup (final_name p) d' ≡ lookup (final_name p) d
    → Unguarded (final_name p) (partial_name os p) d (renamed os p d' answer)
renamed-Unguarded os p d d' (err e) synced apart valid same = same
renamed-Unguarded os p d d' (ok _) synced apart valid same =
    let (bytes, (at, magic)) = header-lookup os (partial_name os p) d' valid in
    rw synced
      (moved-Dumped (final_name p) (partial_name os p) p.final_path bytes d d' apart at magic)

commit_if-Unguarded :
    (os : Os) (args : DumpArgs) (p : Plan) (d d' : Dir) (answer : Result (Unit {0}))
    → os.fsync_dir p.dump_dir ≡ ok tt
    → text_eq (partial_name os p) (final_name p) ≡ false
    → lookup (final_name p) d' ≡ lookup (final_name p) d
    → Unguarded (final_name p) (partial_name os p) d (commit_if os args p d' answer)
unfolding commit
commit_if-Unguarded os args p d d' (err e) synced apart same = same
commit_if-Unguarded os args p d d' (ok _) synced apart same =
    elim (Bool-cases (has_dump_header os (partial_name os p) d')) [
      | inl valid ↦ rw valid (renamed-Unguarded os p d d' _ synced apart valid same)
      | inr invalid ↦ rw invalid same
    ]

dump_partial-Unguarded :
    (os : Os) (engine : Engine) (args : DumpArgs) (p : Plan) (d d' : Dir)
    → os.fsync_dir p.dump_dir ≡ ok tt
    → text_eq (partial_name os p) (final_name p) ≡ false
    → lookup (final_name p) d' ≡ lookup (final_name p) d
    → Unguarded (final_name p) (partial_name os p) d (dump_partial os engine args p d')
unfolding dump_partial
dump_partial-Unguarded os engine args p d d' synced apart same =
    commit_if-Unguarded os args p d _ _ synced apart
      (lookup-stream (final_name p) (partial_name os p) _ d' apart ∙ same)

-- A dump that gets past its checks, into a directory that can be synced and where its partial file
-- can be removed, with no retention asked for and to a name that is a file name and no partial
-- file's: if it succeeds, the file under the final name starts as a dump does; if it fails, that
-- name has what it had. No partial file is left either way.
pub dump_with_engine-Dumped :
    (os : Os) (engine : Engine) (args : DumpArgs) (disk : Disk) (d : Dir) (p : Plan)
    → plan os engine args disk d ≡ ok p
    → args.keep ≡ none
    → os.fsync_dir p.dump_dir ≡ ok tt
    → os.can_remove (partial_name os p) ≡ true
    → is_file_name (final_name p) ≡ true
    → has_partial_extension (final_name p) ≡ false
    → Dumped (final_name p) (partial_name os p) d (dump_with_engine os engine args disk d)
unfolding dump_with_engine
dump_with_engine-Dumped os engine args disk d p planned keep synced can named whole =
    rw (planned, keep)
      (guard_partial-Dumped os (final_name p) (partial_name os p) d _ can apart (
        dump_partial-Unguarded os engine (record args { keep = none }) p d _ synced apart
          (lookup-sweep_stale_partials os (final_name p) d whole)))
  where
    apart : text_eq (partial_name os p) (final_name p) ≡ false
    apart = with_extension-untaken (final_name p) os.pid named
