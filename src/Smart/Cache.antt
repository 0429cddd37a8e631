-- ===== src/Smart/Cache.antt =====
-- smart/cache.rs, `read_cache`. The bytes are what `File` says of them.
use pg_forge_cli.Base.{ℕ, ◌*◌, ◌≡◌, refl, Bool, true, false, arith, if◌then◌else◌}
use pg_forge_cli.Base.Int.{ℤ, pos, ◌-ℤ◌, ◌≤ℤ◌, ltb_ℤ}
use pg_forge_cli.State.Store.{File, absent, unreadable, malformed, holds}
use pg_forge_cli.Smart.Types.{
  SmartHealth, unknown, no_cache, parse_error, stale, unknown_health, is_stale,
}

-- `clock` is the instant that `SmartHealth::unknown` reads.
unfoldable pub read_cache : File SmartHealth → ℤ → ℕ → ℤ → SmartHealth
read_cache absent now max_age_hours clock = unknown_health no_cache clock
read_cache unreadable now max_age_hours clock = unknown_health no_cache clock
read_cache malformed now max_age_hours clock = unknown_health parse_error clock
read_cache (holds h) now max_age_hours clock =
    if is_stale h now max_age_hours then unknown_health stale clock else h

-- What a reader gets: no report, or the cached one, neither of the future nor as old as the limit.
pub data Fresh (file : File SmartHealth) (now : ℤ) (max_age_hours : ℕ) (h : SmartHealth)
    : Type 0 where
  no_report : h.status ≡ unknown → Fresh file now max_age_hours h
  cached :
      file ≡ holds h
      → h.checked_at ≤ℤ now
      → ltb_ℤ (now -ℤ h.checked_at) (pos (max_age_hours * 3600)) ≡ true
      → Fresh file now max_age_hours h

or_stale-Fresh :
    (h : SmartHealth) (now : ℤ) (max_age_hours : ℕ) (clock : ℤ) (b : Bool)
    → is_stale h now max_age_hours ≡ b
    → Fresh (holds h) now max_age_hours (if b then unknown_health stale clock else h)
unfolding is_stale unknown_health
or_stale-Fresh h now hours clock true e = no_report refl
or_stale-Fresh h now hours clock false e = cached refl (ground (arith, e)) (ground (arith, e))

-- A reader of the cache gets no stale report: what it gets is of status unknown, or is the cached
-- report, not of the future and younger than the limit.
pub read_cache-Fresh :
    (file : File SmartHealth) (now : ℤ) (max_age_hours : ℕ) (clock : ℤ)
    → Fresh file now max_age_hours (read_cache file now max_age_hours clock)
unfolding read_cache unknown_health
read_cache-Fresh absent now hours clock = no_report refl
read_cache-Fresh unreadable now hours clock = no_report refl
read_cache-Fresh malformed now hours clock = no_report refl
read_cache-Fresh (holds h) now hours clock =
    or_stale-Fresh h now hours clock (is_stale h now hours) refl
