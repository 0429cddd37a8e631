-- ===== src/Docker/Wait/Polling.antt =====
-- docker/wait.rs, `wait_for_pg_ready` and `wait_for_recovery_end` as calls to the engine. On fuel: a
-- turn for each second to wait and one more.
use pg_forge_cli.Base.{
  ℕ, zero, suc, ◌+◌, ◌*◌, ◌&&◌, Bool, true, false, Text, text_eq, codes, List, [], ◌∷◌, leb,
}
use pg_forge_cli.Base.Int.{is_zero}
use pg_forge_cli.Base.Lines.{trim}
use pg_forge_cli.Error.{Result, ok, err, PgForgeError, docker, not_ready_within, still_in_recovery}
use pg_forge_cli.Docker.Engine.{
  Engine, ExecOutput, Action, World, running_exec, ◌>>◌, sleep, fail, skip,
}
use pg_forge_cli.Docker.Wait.{Poll, exited, refused, Verdict, finished, go_on, judge}

abbrev pub is_ready_argv : List Text
is_ready_argv = codes "pg_isready" ∷ codes "-h" ∷ codes "/var/run/postgresql" ∷ []

abbrev pub poll_of : Engine → Result ExecOutput → Poll
poll_of engine (ok out) = exited out.exit_code
poll_of engine (err e) = refused (engine.to_string e) e

-- The answer as a value, so that the loop can look at it.
abbrev pub attempted : Text → List Text → Engine → World → Result ExecOutput × World
attempted id argv engine = running_exec id argv (λ h. engine.exec h id argv)

abbrev pub next_turn : Bool → ℕ → PgForgeError → Action (Unit {0}) → Action (Unit {0})
next_turn true pause late next = fail late
next_turn false pause late next = sleep pause >> next

abbrev pub after_poll :
    Engine → ℕ → PgForgeError → Verdict → (ℕ → Action (Unit {0})) → Action (Unit {0})
after_poll engine deadline late (finished (ok _)) next w = skip w
after_poll engine deadline late (finished (err e)) next w = fail e w
after_poll engine deadline late (go_on n) next w =
    next_turn (leb deadline (engine.clock w.steps)) 1000 late (next n) w

abbrev pub ready_turn : Engine → Text → ℕ → ℕ → ℕ → (ℕ → Action (Unit {0})) → Action (Unit {0})
ready_turn engine id seconds deadline stopped next w =
    let (r, w') = attempted id is_ready_argv engine w in
    after_poll engine deadline (docker (not_ready_within id seconds))
      (judge id stopped (poll_of engine r)) next w'

unfoldable pub ready_turns : ℕ → Engine → Text → ℕ → ℕ → ℕ → Action (Unit {0})
ready_turns zero engine id seconds deadline stopped = fail (docker (not_ready_within id seconds))
ready_turns (suc fuel) engine id seconds deadline stopped =
    ready_turn engine id seconds deadline stopped
      (λ n. ready_turns fuel engine id seconds deadline n)

unfoldable pub wait_for_pg_ready : Engine → Text → ℕ → Action (Unit {0})
wait_for_pg_ready engine id seconds w =
    ready_turns (suc seconds) engine id seconds (engine.clock w.steps + 1000 * seconds) 0 w

abbrev pub recovery_argv : List Text
recovery_argv =
    codes "psql"
    ∷ codes "-tA"
    ∷ codes "-U"
    ∷ codes "pgbackrest"
    ∷ codes "-d"
    ∷ codes "postgres"
    ∷ codes "-h"
    ∷ codes "/var/run/postgresql"
    ∷ codes "-c"
    ∷ codes "select pg_is_in_recovery()"
    ∷ []

-- `f` alone ends the wait.
unfoldable pub has_left_recovery : Result ExecOutput → Bool
has_left_recovery (ok out) = is_zero out.exit_code && text_eq (trim out.stdout) (codes "f")
has_left_recovery (err e) = false

abbrev pub after_query : Engine → ℕ → PgForgeError → Bool → Action (Unit {0}) → Action (Unit {0})
after_query engine deadline late true next w = skip w
after_query engine deadline late false next w =
    next_turn (leb deadline (engine.clock w.steps)) 2000 late next w

abbrev pub recovery_turn : Engine → Text → ℕ → ℕ → Action (Unit {0}) → Action (Unit {0})
recovery_turn engine id seconds deadline next w =
    let (r, w') = attempted id recovery_argv engine w in
    after_query engine deadline (docker (still_in_recovery id seconds)) (has_left_recovery r) next
      w'

unfoldable pub recovery_turns : ℕ → Engine → Text → ℕ → ℕ → Action (Unit {0})
recovery_turns zero engine id seconds deadline = fail (docker (still_in_recovery id seconds))
recovery_turns (suc fuel) engine id seconds deadline =
    recovery_turn engine id seconds deadline (recovery_turns fuel engine id seconds deadline)

unfoldable pub wait_for_recovery_end : Engine → Text → ℕ → Action (Unit {0})
wait_for_recovery_end engine id seconds w =
    recovery_turns (suc seconds) engine id seconds (engine.clock w.steps + 1000 * seconds) w
