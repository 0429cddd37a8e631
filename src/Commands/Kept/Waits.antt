-- ===== src/Commands/Kept/Waits.antt =====
-- The waits of docker/wait.rs change no file and remove nothing.
use pg_forge_cli.Base.{ℕ, zero, suc, Bool, true, false, not, Text, text_eq, all, leb, arith}
use pg_forge_cli.Error.{PgForgeError, ok, err, docker, not_ready_within, still_in_recovery}
use pg_forge_cli.Docker.Engine.{
  Step, removing_volume, creating, CreateContainerSpec, Engine, World, Action, fail, sleep,
}
use pg_forge_cli.Docker.Wait.{Verdict, finished, go_on, judge}
use pg_forge_cli.Docker.Wait.Polling.{
  is_ready_argv, recovery_argv, poll_of, attempted, next_turn, after_poll, ready_turn, ready_turns,
  wait_for_pg_ready, has_left_recovery, after_query, recovery_turn, recovery_turns,
  wait_for_recovery_end,
}
use pg_forge_cli.Commands.Kept.{IsKeeping, IsPassing, same}

-- A call that does not remove the volume, and that creates a container only as the test allows.
unfoldable pub spares : (CreateContainerSpec → Bool) → Text → Step → Bool
spares f v (removing_volume u) = not (text_eq u v)
spares f v (creating spec) = f spec
spares f v _ = true

-- Both relations at once, for the loops.
abbrev IsQuiet : (CreateContainerSpec → Bool) → Text → Action (Unit {0}) → Type 0
IsQuiet f v m = IsKeeping m × IsPassing (spares f v) m

fail-IsQuiet : (f : CreateContainerSpec → Bool) (v : Text) (e : PgForgeError) → IsQuiet f v (fail e)
fail-IsQuiet f v e = (same, λ w h. h)

next_turn-IsQuiet :
    (f : CreateContainerSpec → Bool) (v : Text) (b : Bool) (pause : ℕ) (late : PgForgeError)
    (next : Action (Unit {0}))
    → IsQuiet f v next
    → IsQuiet f v (next_turn b pause late next)
unfolding all spares
next_turn-IsQuiet f v true pause late next h = fail-IsQuiet f v late
next_turn-IsQuiet f v false pause late next (files, calls) =
    (λ w. files (sleep pause w).1, λ w h. calls (sleep pause w).1 (ground (arith, h)))

after_poll-IsQuiet :
    (f : CreateContainerSpec → Bool) (v : Text) (engine : Engine) (deadline : ℕ)
    (late : PgForgeError) (verdict : Verdict) (next : ℕ → Action (Unit {0}))
    → ((n : ℕ) → IsQuiet f v (next n))
    → IsQuiet f v (after_poll engine deadline late verdict next)
after_poll-IsQuiet f v engine deadline late (finished (ok _)) next h = (same, λ w k. k)
after_poll-IsQuiet f v engine deadline late (finished (err e)) next h = (same, λ w k. k)
after_poll-IsQuiet f v engine deadline late (go_on n) next h = (
  λ w. (next_turn-IsQuiet f v (leb deadline (engine.clock w.steps)) 1000 late (next n) (h n)).0 w,
  λ w. (next_turn-IsQuiet f v (leb deadline (engine.clock w.steps)) 1000 late (next n) (h n)).1 w,
)

after_query-IsQuiet :
    (f : CreateContainerSpec → Bool) (v : Text) (engine : Engine) (deadline : ℕ)
    (late : PgForgeError) (b : Bool) (next : Action (Unit {0}))
    → IsQuiet f v next
    → IsQuiet f v (after_query engine deadline late b next)
after_query-IsQuiet f v engine deadline late true next h = (same, λ w k. k)
after_query-IsQuiet f v engine deadline late false next h = (
  λ w. (next_turn-IsQuiet f v (leb deadline (engine.clock w.steps)) 2000 late next h).0 w,
  λ w. (next_turn-IsQuiet f v (leb deadline (engine.clock w.steps)) 2000 late next h).1 w,
)

ready_turn-IsQuiet :
    (f : CreateContainerSpec → Bool) (v : Text) (engine : Engine) (id : Text)
    (seconds deadline stopped : ℕ) (next : ℕ → Action (Unit {0}))
    → ((n : ℕ) → IsQuiet f v (next n))
    → IsQuiet f v (ready_turn engine id seconds deadline stopped next)
unfolding all spares
ready_turn-IsQuiet f v engine id seconds deadline stopped next h =
    (λ w. (quiet w).0 (asked w), λ w k. (quiet w).1 (asked w) (ground (arith, k)))
  where
    asked : World → World
    asked w = (attempted id is_ready_argv engine w).1

    quiet :
        (w : World)
        → IsQuiet f v (
            after_poll engine deadline
              (docker (not_ready_within id seconds))
              (judge id stopped (poll_of engine (attempted id is_ready_argv engine w).0))
              next)
    quiet w = after_poll-IsQuiet f v engine deadline _ _ next h

ready_turns-IsQuiet :
    (fuel : ℕ) (f : CreateContainerSpec → Bool) (v : Text) (engine : Engine) (id : Text)
    (seconds deadline stopped : ℕ)
    → IsQuiet f v (ready_turns fuel engine id seconds deadline stopped)
unfolding ready_turns
ready_turns-IsQuiet zero f v engine id seconds deadline stopped =
    fail-IsQuiet f v (docker (not_ready_within id seconds))
ready_turns-IsQuiet (suc fuel) f v engine id seconds deadline stopped =
    ready_turn-IsQuiet f v engine id seconds deadline stopped _
      (λ n. ready_turns-IsQuiet fuel f v engine id seconds deadline n)

recovery_turn-IsQuiet :
    (f : CreateContainerSpec → Bool) (v : Text) (engine : Engine) (id : Text) (seconds deadline : ℕ)
    (next : Action (Unit {0}))
    → IsQuiet f v next
    → IsQuiet f v (recovery_turn engine id seconds deadline next)
unfolding all spares
recovery_turn-IsQuiet f v engine id seconds deadline next h =
    (λ w. (quiet w).0 (asked w), λ w k. (quiet w).1 (asked w) (ground (arith, k)))
  where
    asked : World → World
    asked w = (attempted id recovery_argv engine w).1

    quiet :
        (w : World)
        → IsQuiet f v (
            after_query engine deadline
              (docker (still_in_recovery id seconds))
              (has_left_recovery (attempted id recovery_argv engine w).0)
              next)
    quiet w = after_query-IsQuiet f v engine deadline _ _ next h

recovery_turns-IsQuiet :
    (fuel : ℕ) (f : CreateContainerSpec → Bool) (v : Text) (engine : Engine) (id : Text)
    (seconds deadline : ℕ)
    → IsQuiet f v (recovery_turns fuel engine id seconds deadline)
unfolding recovery_turns
recovery_turns-IsQuiet zero f v engine id seconds deadline =
    fail-IsQuiet f v (docker (still_in_recovery id seconds))
recovery_turns-IsQuiet (suc fuel) f v engine id seconds deadline =
    recovery_turn-IsQuiet f v engine id seconds deadline _
      (recovery_turns-IsQuiet fuel f v engine id seconds deadline)

pub wait_for_pg_ready-IsKeeping :
    (engine : Engine) (id : Text) (seconds : ℕ) → IsKeeping (wait_for_pg_ready engine id seconds)
unfolding wait_for_pg_ready
wait_for_pg_ready-IsKeeping engine id seconds w =
    (ready_turns-IsQuiet (suc seconds) (λ spec. true) id engine id seconds _ 0).0 w

pub wait_for_pg_ready-spares :
    (f : CreateContainerSpec → Bool) (v : Text) (engine : Engine) (id : Text) (seconds : ℕ)
    → IsPassing (spares f v) (wait_for_pg_ready engine id seconds)
unfolding wait_for_pg_ready
wait_for_pg_ready-spares f v engine id seconds w =
    (ready_turns-IsQuiet (suc seconds) f v engine id seconds _ 0).1 w

pub wait_for_recovery_end-IsKeeping :
    (engine : Engine) (id : Text) (seconds : ℕ)
    → IsKeeping (wait_for_recovery_end engine id seconds)
unfolding wait_for_recovery_end
wait_for_recovery_end-IsKeeping engine id seconds w =
    (recovery_turns-IsQuiet (suc seconds) (λ spec. true) id engine id seconds _).0 w
