-- ===== src/Docker/Wait/Returns.antt =====
-- The loop ends, and ends well only if PostgreSQL has answered.
use pg_forge_cli.Base.{
  ℕ, zero, suc, ◌+◌, ◌*◌, ◌≤◌, ◌≡◌, refl, Bool, true, false, Option, some, leb, arith,
  if◌then◌else◌,
}
use pg_forge_cli.Base.Int.{ℤ, is_zero}
use pg_forge_cli.Error.{PgForgeError, Result, ok, err}
use pg_forge_cli.Docker.Wait.{
  Poll, exited, refused, Verdict, finished, go_on, judge, Waiting, after_verdict, wait_from,
  wait_for_pg_ready,
}

-- `sleep` takes its second.
abbrev pub Sleeps : Waiting → Type 0
Sleeps wt = (i : ℕ) → wt.now i + 1000 ≤ wt.now (suc i)

abbrev IsDone : Option (Result (Unit {0})) → Type 0
IsDone o = (r : Result (Unit {0})) × (o ≡ some r)

or_next-IsDone :
    (b : Bool) (r : Result (Unit {0})) (o : Option (Result (Unit {0})))
    → (b ≡ false → IsDone o)
    → IsDone (if b then some r else o)
or_next-IsDone true r o h = (r, refl)
or_next-IsDone false r o h = h refl

after_verdict-IsDone :
    (wt : Waiting) (i : ℕ) (v : Verdict) (next : ℕ → Option (Result (Unit {0})))
    → ((n : ℕ) → leb wt.deadline (wt.now i) ≡ false → IsDone (next n))
    → IsDone (after_verdict wt i v next)
after_verdict-IsDone wt i (finished r) next h = (r, refl)
after_verdict-IsDone wt i (go_on n) next h =
    or_next-IsDone (leb wt.deadline (wt.now i)) _ (next n) (h n)

wait_from-returns :
    (fuel : ℕ) (wt : Waiting) (i stopped : ℕ)
    → Sleeps wt
    → wt.deadline ≤ wt.now i + 1000 * fuel
    → IsDone (wait_from (suc fuel) wt i stopped)
unfolding wait_from
wait_from-returns zero wt i stopped sleeps near =
    after_verdict-IsDone wt i (judge wt.id stopped (wt.poll i)) (λ n. wait_from zero wt (suc i) n)
      (λ n late. ground (arith, late, near))
wait_from-returns (suc fuel) wt i stopped sleeps near =
    after_verdict-IsDone wt i (judge wt.id stopped (wt.poll i))
      (λ n. wait_from (suc fuel) wt (suc i) n)
      (λ n early. wait_from-returns fuel wt (suc i) n sleeps (omega (arith, near, sleeps i)))

-- If each turn takes its second of sleep and the deadline is at most that many seconds away, the
-- loop returns within a turn for each second and one more.
pub wait_for_pg_ready-returns :
    (wt : Waiting)
    → Sleeps wt
    → wt.deadline ≤ wt.now 0 + 1000 * wt.seconds
    → (r : Result (Unit {0})) × (wait_for_pg_ready (suc wt.seconds) wt ≡ some r)
unfolding wait_for_pg_ready
wait_for_pg_ready-returns wt sleeps near = wait_from-returns wt.seconds wt 0 0 sleeps near

-- Some `pg_isready` has ended with 0.
abbrev pub Answered : Waiting → Type 0
Answered wt = (k : ℕ) × (code : ℤ) × (wt.poll k ≡ exited code) × (is_zero code ≡ true)

next_ready :
    (wt : Waiting) (b : Bool) (e : PgForgeError) (o : Option (Result (Unit {0})))
    → (if b then some (err e) else o) ≡ some (ok tt)
    → (o ≡ some (ok tt) → Answered wt)
    → Answered wt
next_ready wt true e o h next = cc
next_ready wt false e o h next = next h

verdict-ready :
    (wt : Waiting) (i : ℕ) (v : Verdict) (next : ℕ → Option (Result (Unit {0})))
    → after_verdict wt i v next ≡ some (ok tt)
    → (v ≡ finished (ok tt) → Answered wt)
    → ((n : ℕ) → next n ≡ some (ok tt) → Answered wt)
    → Answered wt
verdict-ready wt i (finished (ok tt)) next h now later = now refl
verdict-ready wt i (finished (err e)) next h now later = cc
verdict-ready wt i (go_on n) next h now later =
    next_ready wt (leb wt.deadline (wt.now i)) _ (next n) h (later n)

judge-ready :
    (wt : Waiting) (i stopped : ℕ) (p : Poll)
    → wt.poll i ≡ p
    → judge wt.id stopped p ≡ finished (ok tt)
    → Answered wt
unfolding judge
judge-ready wt i stopped (exited code) e h = (i, code, e, ground (arith, h))
judge-ready wt i stopped (refused msg f) e h = ground (arith, h)

wait_from-ready :
    (fuel : ℕ) (wt : Waiting) (i stopped : ℕ)
    → wait_from fuel wt i stopped ≡ some (ok tt)
    → Answered wt
unfolding wait_from
wait_from-ready zero wt i stopped e = cc
wait_from-ready (suc fuel) wt i stopped e =
    verdict-ready wt i (judge wt.id stopped (wt.poll i)) (λ n. wait_from fuel wt (suc i) n) e
      (judge-ready wt i stopped (wt.poll i) refl) (λ n. wait_from-ready fuel wt (suc i) n)

-- The loop only reports success if some `pg_isready` has ended with 0.
pub wait_for_pg_ready-ready :
    (fuel : ℕ) (wt : Waiting) → wait_for_pg_ready fuel wt ≡ some (ok tt) → Answered wt
unfolding wait_for_pg_ready
wait_for_pg_ready-ready fuel wt e = wait_from-ready fuel wt 0 0 e
