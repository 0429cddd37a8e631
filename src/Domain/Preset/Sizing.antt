-- ===== src/Domain/Preset/Sizing.antt =====
-- What the presets promise: the tuning fits the memory limit, and names and cycles are exact.
use pg_forge_cli.Base.{◌+◌, ◌*◌, ◌≤◌, ◌≡◌, refl, some, text_eq, true}
use pg_forge_cli.Domain.Preset.{
  Preset, tiny, small, medium, large, tuning, from_str, lowercase_name, next_preset, prev_preset,
  preset_eq,
}
use native.Mathlib.Omega.{arith}

-- In every preset a quarter of the memory is shared buffers and three quarters are the planner's
-- cache, and the work memory of all connections together fits beside the shared buffers.
pub tuning_fits_ram :
    (p : Preset)
    → let t = tuning p in
      (4 * t.shared_buffers_mb ≡ t.ram_mb)
      × (4 * t.effective_cache_size_mb ≡ 3 * t.ram_mb)
      × (t.shared_buffers_mb + t.max_connections * t.work_mem_mb ≤ t.ram_mb)
unfolding tuning
tuning_fits_ram tiny = omega arith
tuning_fits_ram small = omega arith
tuning_fits_ram medium = omega arith
tuning_fits_ram large = omega arith

-- The name that the dashboard puts into an encoded resize is parsed back to the same preset.
pub from_str-lowercase_name : (p : Preset) → from_str (lowercase_name p) ≡ some p
unfolding from_str lowercase_name text_eq
from_str-lowercase_name tiny = refl
from_str-lowercase_name small = refl
from_str-lowercase_name medium = refl
from_str-lowercase_name large = refl

-- A step back undoes a step forward in the cycle of presets.
pub prev_preset-next_preset : (p : Preset) → prev_preset (next_preset p) ≡ p
unfolding prev_preset next_preset
prev_preset-next_preset tiny = refl
prev_preset-next_preset small = refl
prev_preset-next_preset medium = refl
prev_preset-next_preset large = refl

-- A step forward undoes a step back in the cycle of presets.
pub next_preset-prev_preset : (p : Preset) → next_preset (prev_preset p) ≡ p
unfolding prev_preset next_preset
next_preset-prev_preset tiny = refl
next_preset-prev_preset small = refl
next_preset-prev_preset medium = refl
next_preset-prev_preset large = refl

pub preset_eq_sound : (p q : Preset) → preset_eq p q ≡ true → p ≡ q
preset_eq_sound p q h = ground arith
