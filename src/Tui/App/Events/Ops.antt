-- ===== src/Tui/App/Events/Ops.antt =====
-- What one event does to the queues, to the lock on an instance, and to the history of samples.
use pg_forge_cli.Base.{
  ℕ, suc, ◌-◌, ◌≡◌, refl, List, [], ◌∷◌, length, drop, ltb, none, some, arith, sym, ◌∙◌, inl, inr,
  Bool-cases,
}
use pg_forge_cli.Tui.Types.{
  KeyCode, Event, key, tick, instances_listed, status_refreshed, snapshots_refreshed, op_started,
  op_finished, refresh_failed, self_update_done, self_update_error, disk_health_refreshed,
  smart_refreshed,
}
use pg_forge_cli.Tui.App.{AppState, Env, Session}
use pg_forge_cli.Tui.App.Submit.Effects.{CreatesValid}
use pg_forge_cli.Tui.App.Keys.Queue.{Queued, handle_key-Queued}
use pg_forge_cli.Tui.App.Keys.Creates.{handle_key-creates}
use pg_forge_cli.Tui.App.Events.{
  cpu_history_len, trim_history, list_instances, refresh_status, finish_op, apply_event,
}

-- The queue of operations after an event: only a key adds to it.
pub data Asked (s t : AppState) : Event → Type 0 where
  by_key : (k : KeyCode) → Queued k s t → Asked s t (key k)
  by_none : (ev : Event) → t.pending_ops ≡ s.pending_ops → Asked s t ev

-- Whatever the event, the queue of operations changes only by a key, and then only by what the key
-- was allowed to queue.
pub apply_event-Asked :
    (env : Env) (ev : Event) (s : Session) → Asked s.app (apply_event env ev s).app ev
unfolding apply_event list_instances refresh_status finish_op
apply_event-Asked env (key k) s = by_key k (handle_key-Queued env k s)
apply_event-Asked env (instances_listed rows) s = by_none (instances_listed rows) refl
apply_event-Asked env (status_refreshed name status) s =
    by_none (status_refreshed name status) (ground arith)
apply_event-Asked env (op_finished name kind none) s = by_none (op_finished name kind none) refl
apply_event-Asked env (op_finished name kind (some msg)) s =
    by_none (op_finished name kind (some msg)) refl
apply_event-Asked env tick s = by_none tick refl
apply_event-Asked env (snapshots_refreshed name view) s =
    by_none (snapshots_refreshed name view) refl
apply_event-Asked env (op_started name kind) s = by_none (op_started name kind) refl
apply_event-Asked env (refresh_failed name) s = by_none (refresh_failed name) refl
apply_event-Asked env (self_update_done u l c) s = by_none (self_update_done u l c) refl
apply_event-Asked env (self_update_error msg) s = by_none (self_update_error msg) refl
apply_event-Asked env (disk_health_refreshed d) s = by_none (disk_health_refreshed d) refl
apply_event-Asked env (smart_refreshed d) s = by_none (smart_refreshed d) refl

pub apply_event-creates :
    (env : Env) (ev : Event) (s : Session)
    → CreatesValid s.app
    → CreatesValid (apply_event env ev s).app
unfolding apply_event list_instances refresh_status finish_op
apply_event-creates env (key k) s h = handle_key-creates env k s h
apply_event-creates env (instances_listed rows) s h = h
apply_event-creates env (status_refreshed name status) s h = ground arith
apply_event-creates env (op_finished name kind none) s h = h
apply_event-creates env (op_finished name kind (some msg)) s h = h
apply_event-creates env tick s h = h
apply_event-creates env (snapshots_refreshed name view) s h = h
apply_event-creates env (op_started name kind) s h = h
apply_event-creates env (refresh_failed name) s h = h
apply_event-creates env (self_update_done u l c) s h = h
apply_event-creates env (self_update_error msg) s h = h
apply_event-creates env (disk_health_refreshed d) s h = h
apply_event-creates env (smart_refreshed d) s h = h

drop_of_eq : (m n x : ℕ) (xs : List ℕ) → m ≡ suc n → drop m (x ∷ xs) ≡ drop n xs
drop_of_eq m n x xs e = rw e

drop_of_zero : (m : ℕ) (xs : List ℕ) → m ≡ 0 → drop m xs ≡ xs
drop_of_zero m xs e = rw e

-- The samples that stay are the last thirty.
pub trim_history-drop : (xs : List ℕ) → trim_history xs ≡ drop (length xs - cpu_history_len) xs
unfolding trim_history
trim_history-drop [] = refl
trim_history-drop (x ∷ xs) = elim (Bool-cases (ltb cpu_history_len (length (x ∷ xs)))) [
  | inl long ↦ rw long (
      trim_history-drop xs
      ∙ sym (
          drop_of_eq (length (x ∷ xs) - cpu_history_len) (length xs - cpu_history_len) x xs
            (ground (arith, long))))
  | inr short ↦
      rw short
        (sym (drop_of_zero (length (x ∷ xs) - cpu_history_len) (x ∷ xs) (ground (arith, short))))
]
