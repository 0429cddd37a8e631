-- ===== src/Tui/Main/Runs.antt =====
-- What the main loop starts, whatever events come.
use pg_forge_cli.Base.{
  ℕ, arith, ◌≡◌, refl, Bool, true, false, Text, List, [], ◌∷◌, ◌++◌, map, Option, All,
  if◌then◌else◌,
}
use pg_forge_cli.Error.{Result, ok, err}
use pg_forge_cli.State.Store.{Disk}
use pg_forge_cli.Tui.Types.{Event}
use pg_forge_cli.Tui.App.{AppState, Env, Session, initial}
use pg_forge_cli.Tui.App.Submit.Effects.{IsValidRequest, CreatesValid}
use pg_forge_cli.Tui.App.Keys.Rows.{InList}
use pg_forge_cli.Tui.App.Events.{apply_event}
use pg_forge_cli.Tui.App.Events.Selection.{apply_event-InList}
use pg_forge_cli.Tui.App.Events.Ops.{apply_event-creates}
use pg_forge_cli.Tui.Main.{
  Spawned, refresh_one, self_update, spawn_create, spawn_queued, show_uri, show_uris, show_created,
  show_all_created, build_post_create_uri, spawned_of, drained, turn, run_loop,
}

-- Between two turns nothing waits in a queue, and the selection points into the list.
pub record Idle (s : AppState) : Type 0 where
  pub in_range : InList s
  pub no_ops : s.pending_ops ≡ []
  pub no_creates : s.pending_creates ≡ []

pub initial-Idle : (now : ℕ) → Idle (initial now)
unfolding initial
initial-Idle now = record { in_range = omega arith; no_ops = refl; no_creates = refl }

-- A started creation has a valid name, a version that a byte holds, and a usable user.
abbrev pub IsSafe : Spawned → Type 0
IsSafe (spawn_create r) = IsValidRequest r
IsSafe _ = Unit

show_uris-Idle :
    (env : Env) (host : Option Text) (disk : Disk) (ns : List Text) (s : AppState)
    → Idle s
    → Idle (show_uris env host disk ns s)
unfolding show_uris
show_uris-Idle env host disk [] s h = h
show_uris-Idle env host disk (n ∷ ns) s h =
    show_uris-Idle env host disk ns (show_uri env n (build_post_create_uri host disk n) s)
      (one (build_post_create_uri host disk n))
  where
    one : (r : Result Text) → Idle (show_uri env n r s)
    one (ok uri) = record { in_range = h.in_range; no_ops = h.no_ops; no_creates = h.no_creates }
    one (err e) = record { in_range = h.in_range; no_ops = h.no_ops; no_creates = h.no_creates }

show_all_created-Idle :
    (host : Option Text) (disk : Disk) (ns : List Text) (s : AppState)
    → Idle s
    → Idle (show_all_created host disk ns s)
unfolding show_all_created
show_all_created-Idle host disk [] s h = h
show_all_created-Idle host disk (n ∷ ns) s h =
    show_all_created-Idle host disk ns (show_created n (build_post_create_uri host disk n) s)
      (one (build_post_create_uri host disk n))
  where
    one : (r : Result Text) → Idle (show_created n r s)
    one (ok uri) = record { in_range = h.in_range; no_ops = h.no_ops; no_creates = h.no_creates }
    one (err e) = h

All-append {ℓ κ} :
    {A : Type ℓ} (P : A → Type κ) (xs ys : List A) → All P xs → All P ys → All P (xs ++ ys)
All-append P [] ys h g = g
All-append P (x ∷ xs) ys (p, h) g = (p, All-append P xs ys h g)

All-map {ℓ κ μ} :
    {A : Type ℓ} {B : Type κ} (f : A → B) (P : B → Type μ) (xs : List A)
    → All (λ x. P (f x)) xs
    → All P (map f xs)
All-map f P [] h = tt
All-map f P (x ∷ xs) (p, h) = (p, All-map f P xs h)

All-of {ℓ κ} : {A : Type ℓ} (P : A → Type κ) → ((x : A) → P x) → (xs : List A) → All P xs
All-of P h [] = tt
All-of P h (x ∷ xs) = (h x, All-of P h xs)

spawned_of-IsSafe : (s : AppState) → CreatesValid s → All IsSafe (spawned_of s)
unfolding spawned_of
spawned_of-IsSafe s h =
    All-append IsSafe _ _
      (All-append IsSafe _ _
        (All-append IsSafe _ _
          (All-map spawn_queued IsSafe s.pending_ops (All-of _ (λ p. tt) s.pending_ops))
          (All-map refresh_one IsSafe s.refresh_requests (All-of _ (λ n. tt) s.refresh_requests)))
        (update s.pending_self_update))
      (All-map spawn_create IsSafe s.pending_creates h)
  where
    update : (b : Bool) → All IsSafe (if b then self_update ∷ [] else [])
    update true = (tt, tt)
    update false = tt

-- From an idle state a turn starts safe tasks only, and leaves an idle state.
pub turn-IsSafe :
    (host : Option Text) (env : Env) (ev : Event) (s : Session)
    → Idle s.app
    → All IsSafe (turn host env ev s).0 × Idle (turn host env ev s).1.app
unfolding turn drained
turn-IsSafe host env ev s h =
    let t = apply_event env ev s in
    (
      spawned_of-IsSafe t.app (apply_event-creates env ev s (creates_of_idle)),
      show_all_created-Idle host t.disk t.app.pending_show_created _ (
          show_uris-Idle env host t.disk t.app.pending_clipboard _ (record {
            in_range = apply_event-InList env ev s h.in_range;
            no_ops = refl;
            no_creates = refl;
          })),
    )
  where
    creates_of_idle : CreatesValid s.app
    creates_of_idle = rw h.no_creates tt

abbrev SafeRun : List Spawned × Session → Type 0
SafeRun (started, s) = All IsSafe started × Idle s.app

either :
    (b : Bool) (x y : List Spawned × Session) → SafeRun x → SafeRun y → SafeRun (if b then x else y)
either true x y p q = p
either false x y p q = q

-- From an idle state, whatever events come, the loop only starts safe tasks (a creation has a
-- valid name, a byte version and a usable user), and ends in an idle state.
pub run_loop-IsSafe :
    (host : Option Text) (evs : List (Env × Event)) (s : Session)
    → Idle s.app
    → All IsSafe (run_loop host evs s).0 × Idle (run_loop host evs s).1.app
unfolding run_loop
run_loop-IsSafe host [] s h = (tt, h)
run_loop-IsSafe host ((env, ev) ∷ evs) s h =
    let (safe, idle) = turn-IsSafe host env ev s h in
    let (later, end) = run_loop-IsSafe host evs (turn host env ev s).1 idle in
    either s.app.should_quit ([], s) (_, _) (tt, h)
      (All-append IsSafe (turn host env ev s).0 _ safe later, end)
