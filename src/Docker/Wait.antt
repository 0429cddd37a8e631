-- ===== src/Docker/Wait.antt =====
-- docker/wait.rs, `wait_for_pg_ready`. The answers of `pg_isready` and the clock, by the number of
-- the turn, are arguments; so is the error's text that `to_string` gives.
pub mod Returns
pub mod Polling
use pg_forge_cli.Base.{
  ℕ, zero, suc, Bool, ◌||◌, Text, codes, Option, none, some, leb, if◌then◌else◌,
}
use pg_forge_cli.Base.Lines.{has_part}
use pg_forge_cli.Base.Int.{ℤ, is_zero}
use pg_forge_cli.Error.{
  Result, ok, err, PgForgeError, docker, crashed_before_ready, not_ready_within,
}

-- What `exec` answers: an exit code, or an error with its text.
pub data Poll : Type 0 where
  exited : ℤ → Poll
  refused : Text → PgForgeError → Poll

-- What one answer means for the loop: it ends, or goes on with the new count of reports that the
-- container is not running.
pub data Verdict : Type 0 where
  finished : Result (Unit {0}) → Verdict
  go_on : ℕ → Verdict

abbrev pub is_transient : Text → Bool
is_transient msg = has_part (codes "is restarting") msg || has_part (codes "status code 409") msg

unfoldable pub judge : Text → ℕ → Poll → Verdict
judge id stopped (exited code) = if is_zero code then finished (ok tt) else go_on 0
judge id stopped (refused msg e) =
    if is_transient msg
    then go_on 0
    else if has_part (codes "is not running") msg
    then (if leb 5 (suc stopped)
        then finished (err (docker (crashed_before_ready id)))
        else go_on (suc stopped))
    else finished (err e)

-- The container, the seconds to wait, the answers, the instants (in milliseconds) and the deadline.
pub record Waiting : Type 0 where
  pub id : Text
  pub seconds : ℕ
  pub poll : ℕ → Poll
  pub now : ℕ → ℕ
  pub deadline : ℕ

abbrev after_verdict :
    Waiting → ℕ → Verdict → (ℕ → Option (Result (Unit {0}))) → Option (Result (Unit {0}))
after_verdict wt i (finished r) next = some r
after_verdict wt i (go_on stopped) next =
    let rest = next stopped in
    if leb wt.deadline (wt.now i)
    then some (err (docker (not_ready_within wt.id wt.seconds)))
    else rest

-- On fuel, from turn `i`.
unfoldable pub wait_from : ℕ → Waiting → ℕ → ℕ → Option (Result (Unit {0}))
wait_from zero wt i stopped = none
wait_from (suc fuel) wt i stopped =
    after_verdict wt i (judge wt.id stopped (wt.poll i)) (λ n. wait_from fuel wt (suc i) n)

unfoldable pub wait_for_pg_ready : ℕ → Waiting → Option (Result (Unit {0}))
wait_for_pg_ready fuel wt = wait_from fuel wt 0 0
