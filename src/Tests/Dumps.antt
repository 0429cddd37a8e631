-- ===== src/Tests/Dumps.antt =====
-- A dump of a running instance next to the dump of the day before.
use pg_forge_cli.Base.{
  true, false, ◌≡◌, refl, Text, text_eq, codes, [], ◌∷◌, none, some, select, all,
}
use pg_forge_cli.Base.Dict.{lookup, insert, erase}
use pg_forge_cli.Base.Lines.{lines, starts_with, strip_prefix}
use pg_forge_cli.Error.{ok}
use pg_forge_cli.Domain.Instance.{validate_name, is_valid_name}
use pg_forge_cli.State.Store.{load_under}
use pg_forge_cli.Commands.Dump.{resolve_dump_path, ends_with, is_valid_custom_dump}
use pg_forge_cli.Commands.Dump.Space.{parse_df_available_kb}
use pg_forge_cli.Commands.Dump.Paths.{
  before_last, behind_last, name_of, stem_of, with_extension, has_partial_extension,
}
use pg_forge_cli.Commands.Dump.Run.{
  Dir, DumpArgs, Os, Plan, plan, dump_with_engine, stream, dump_partial, commit, has_dump_header,
  guard_partial, sweep_stale_partials,
}
use pg_forge_cli.Commands.Dump.Run.Commit.{Dumped, dump_with_engine-Dumped}
use pg_forge_cli.Tests.Fixtures.{engine, pg, pg_instance, disk}

abbrev df_text : Text
df_text =
    codes
      "Filesystem 1024-blocks Used Available Capacity Mounted on\n/dev/sda1 9000000 1 8000000 1% /\n"

abbrev os : Os
os = record {
  home = some (codes "/home/pg");
  pid = codes "7";
  now_iso = codes "2026-05-14T09:30:00Z";
  create_secret_dir = λ dir. ok tt;
  create_dir_all = λ dir. ok tt;
  df = λ dir. ok df_text;
  can_list = true;
  is_stale = λ name. true;
  can_read = λ name. true;
  can_remove = λ name. true;
  rename = λ from to. ok tt;
  fsync_dir = λ dir. ok tt;
}

abbrev args : DumpArgs
args = record { name = pg; out = none; force = false; keep = none; timeout_secs = 60 }

abbrev dumps : Dir
dumps =
    (codes "pg-20260513-093000.dump", codes "PGDMP1") ∷ (codes "pg-1.9.partial", codes "PG") ∷ []

abbrev planned : Plan
planned = record {
  instance = pg_instance;
  dump_dir = codes "/home/pg/pgforge-dumps";
  final_path = codes "/home/pg/pgforge-dumps/pg-20260514-093000.dump";
}

free : parse_df_available_kb df_text ≡ some 8000000
unfolding parse_df_available_kb lines
free = refl

plan-planned : plan os engine args disk dumps ≡ ok planned
unfolding plan validate_name is_valid_name all load_under lookup text_eq resolve_dump_path select
    name_of
plan-planned = rw free refl

dumped : dump_with_engine os engine args disk dumps ≡ (
  (codes "pg-20260513-093000.dump", codes "PGDMP1")
      ∷ (codes "pg-20260514-093000.dump", codes "PGDMP")
      ∷ [],
  ok planned.final_path,
)
unfolding dump_with_engine guard_partial dump_partial stream lookup sweep_stale_partials select
    has_partial_extension starts_with text_eq with_extension name_of commit has_dump_header insert
    is_valid_custom_dump erase
dumped = rw plan-planned refl

dump_with_engine-Dumped_example :
    Dumped
      (codes "pg-20260514-093000.dump")
      (codes "pg-20260514-093000.7.partial")
      dumps
      (dump_with_engine os engine args disk dumps)
unfolding name_of behind_last before_last with_extension stem_of text_eq has_partial_extension
    ends_with starts_with strip_prefix
dump_with_engine-Dumped_example =
    dump_with_engine-Dumped os engine args disk dumps planned plan-planned refl refl refl refl refl
