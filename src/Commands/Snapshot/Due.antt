-- ===== src/Commands/Snapshot/Due.antt =====
-- When a scheduled snapshot is due.
use pg_forge_cli.Base.{
  ℕ, suc, ◌*◌, ◌≤◌, Bool, true, false, ◌≡◌, Text, List, [], ◌∷◌, Option, some, length, arith,
}
use pg_forge_cli.Base.Int.{ℤ, pos, ◌≤ℤ◌}
use pg_forge_cli.Docker.Engine.{Engine, World}
use pg_forge_cli.Commands.Snapshot.{Clock, attempt, run_each}

-- The hour has come, the last good snapshot (whose timestamp is readable) is not of today, and the
-- last attempt is an hour old, if its timestamp is readable.
pub record Due (clock : Clock) (hour : ℕ) (last_ok last_attempt : Option Text) : Type 0 where
  pub opened : hour * 3600 ≤ clock.seconds_of_day
  pub uncovered : (t : Text) → last_ok ≡ some t → clock.is_today t ≡ some false
  pub rested :
      (t : Text) (age : ℤ)
      → last_attempt ≡ some t
      → clock.seconds_ago t ≡ some age
      → pos 3600 ≤ℤ age

-- The three conditions that the documentation of the function names. `is_older` says of a timestamp
-- that it is before today's opening of the window.
pub record Documented (clock : Clock) (is_older : Text → Bool) (hour : ℕ)
    (last_ok last_attempt : Option Text) : Type 0 where
  pub opened : hour * 3600 ≤ clock.seconds_of_day
  pub older : (t : Text) → last_ok ≡ some t → is_older t ≡ true
  pub rested :
      (t : Text) (age : ℤ)
      → last_attempt ≡ some t
      → clock.seconds_ago t ≡ some age
      → pos 3600 ≤ℤ age

-- There is no good snapshot of today, at whatever hour; an unreadable timestamp counts as one.
abbrev pub IsUncovered : Clock → Option Text → Type 0
IsUncovered clock last_ok = (t : Text) → last_ok ≡ some t → clock.is_today t ≡ some false

attempt-le :
    (engine : Engine) (clock : Clock) (name : Text) (w : World)
    → (attempt engine clock name w).0 ≤ 1
unfolding attempt
attempt-le engine clock name w = ground arith

-- The loop over the listed instances counts each at most once.
pub run_each-le :
    (engine : Engine) (clocks : ℕ → Clock) (i : ℕ) (names : List Text) (w : World)
    → (run_each engine clocks i names w).0 ≤ length names
unfolding run_each
run_each-le engine clocks i [] w = omega arith
run_each-le engine clocks i (name ∷ names) w = omega (
  arith,
  attempt-le engine (clocks i) name w,
  run_each-le engine clocks (suc i) names (attempt engine (clocks i) name w).1,
)
