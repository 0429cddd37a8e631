-- ===== src/Domain/Preset.antt =====
-- domain/preset.rs: the four tuning presets, and the preset cycles of tui/app.rs.
pub mod Sizing
use pg_forge_cli.Base.{ℕ, ◌==◌, ◌+◌, ◌&&◌, Bool, Text, text_eq, codes, map, Option, none, some, leb}
use pg_forge_cli.Base.{if◌then◌else◌}

pub data Preset : Type 0 where
  tiny small medium large : Preset

pub record Tuning : Type 0 where
  pub ram_mb : ℕ
  pub max_connections : ℕ
  pub shared_buffers_mb : ℕ
  pub effective_cache_size_mb : ℕ
  pub work_mem_mb : ℕ
  pub max_wal_size_mb : ℕ

abbrev tuned : ℕ → ℕ → ℕ → ℕ → ℕ → ℕ → Tuning
tuned ram connections buffers cache work wal = record {
  ram_mb = ram;
  max_connections = connections;
  shared_buffers_mb = buffers;
  effective_cache_size_mb = cache;
  work_mem_mb = work;
  max_wal_size_mb = wal;
}

unfoldable pub tuning : Preset → Tuning
tuning tiny = tuned 1024 50 256 768 5 1024
tuning small = tuned 2048 100 512 1536 5 2048
tuning medium = tuned 4096 200 1024 3072 5 4096
tuning large = tuned 8192 400 2048 6144 5 8192

-- The derived `==` compares discriminants.
abbrev discriminant : Preset → ℕ
discriminant tiny = 0
discriminant small = 1
discriminant medium = 2
discriminant large = 3

abbrev pub preset_eq : Preset → Preset → Bool
preset_eq p q = discriminant p == discriminant q

unfoldable pub to_ascii_lowercase : ℕ → ℕ
to_ascii_lowercase c = if leb b'A' c && leb c b'Z' then c + 32 else c

-- `FromStr`; the error carries only the text that it was given.
unfoldable pub from_str : Text → Option Preset
unfolding to_ascii_lowercase
from_str s =
    let lower = map to_ascii_lowercase s in
    if text_eq lower (codes "tiny")
    then some tiny
    else if text_eq lower (codes "small")
    then some small
    else if text_eq lower (codes "medium")
    then some medium
    else if text_eq lower (codes "large")
    then some large
    else none

-- `format!("{:?}", preset).to_lowercase()`
unfoldable pub lowercase_name : Preset → Text
lowercase_name tiny = codes "tiny"
lowercase_name small = codes "small"
lowercase_name medium = codes "medium"
lowercase_name large = codes "large"

unfoldable pub next_preset : Preset → Preset
next_preset tiny = small
next_preset small = medium
next_preset medium = large
next_preset large = tiny

unfoldable pub prev_preset : Preset → Preset
prev_preset tiny = large
prev_preset small = tiny
prev_preset medium = small
prev_preset large = medium
