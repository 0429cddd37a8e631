-- ===== src/Tui/App/Events/Selection.antt =====
-- The list, the selection and the modal after any events.
use pg_forge_cli.Base.{
  ℕ, zero, suc, ◌<◌, max, ◌≡◌, refl, inl, inr, Bool, true, false, Text, text_eq_iff, List, [], ◌∷◌,
  map, Option, none, some, length, get_elem?, contains, arith, Option-cases,
}
use pg_forge_cli.Tui.Types.{
  InstanceSummary, Modal, Event, key, tick, instances_listed, status_refreshed, snapshots_refreshed,
  op_started, op_finished, refresh_failed, self_update_done, self_update_error,
  disk_health_refreshed, smart_refreshed,
}
use pg_forge_cli.Tui.App.{AppState, Env, Session, name_at, selected_name}
use pg_forge_cli.Tui.App.Openers.{row_name}
use pg_forge_cli.Tui.App.Keys.Rows.{InList, handle_key-InList}
use pg_forge_cli.Tui.App.Events.{
  position, clamp_selected, reanchor, bound_name, keep_modal, list_instances, refresh_status,
  finish_op, apply_event,
}

position-lt :
    (n : Text) (rows : List InstanceSummary) (i : ℕ) → position n rows ≡ some i → i < length rows
unfolding position
position-lt n [] i e = cc
position-lt n (r ∷ rs) zero e = omega arith
position-lt n (r ∷ rs) (suc i) e = ground (arith, position-lt n rs i)

-- The row at the found position has the name.
position-name :
    (n : Text) (rows : List InstanceSummary) (i : ℕ)
    → position n rows ≡ some i
    → name_at (get_elem? rows i) ≡ some n
unfolding position
position-name n [] i e = cc
position-name n (r ∷ rs) zero e = ground (arith, text_eq_iff r.name n)
position-name n (r ∷ rs) (suc i) e = ground (arith, position-name n rs i)

position-none :
    (n : Text) (rows : List InstanceSummary)
    → position n rows ≡ none
    → contains (map row_name rows) n ≡ false
unfolding position contains
position-none n [] e = refl
position-none n (r ∷ rs) e = ground (arith, position-none n rs)

clamp-lt : (rows : List InstanceSummary) (i : ℕ) → clamp_selected rows i < max 1 (length rows)
clamp-lt [] i = omega arith
clamp-lt (r ∷ rs) i = ground arith

reanchor-lt :
    (prev : Option Text) (rows : List InstanceSummary) (i : ℕ)
    → reanchor prev rows i < max 1 (length rows)
reanchor-lt none rows i = unfold reanchor in clamp-lt rows i
reanchor-lt (some n) rows i = elim (Option-cases (position n rows)) [
  | inl absent ↦ unfold reanchor in rw absent (clamp-lt rows i)
  | inr (j, found) ↦ unfold reanchor in rw found (omega (arith, position-lt n rows j found))
]

-- The new list is shown, the selection follows the instance that was selected as long as that is
-- listed, and a modal that stays open is about no instance or about a listed one.
pub record Listed (rows : List InstanceSummary) (s t : AppState) : Type 0 where
  pub shown : t.instances ≡ rows
  pub in_range : InList t
  pub follows :
      (n : Text)
      → selected_name s ≡ some n
      → contains (map row_name rows) n ≡ true
      → selected_name t ≡ some n
  pub modal_bound :
      (m : Modal) (n : Text)
      → t.modal ≡ some m
      → bound_name m ≡ some n
      → contains (map row_name rows) n ≡ true

reanchor-name :
    (n : Text) (rows : List InstanceSummary) (i : ℕ)
    → contains (map row_name rows) n ≡ true
    → name_at (get_elem? rows (reanchor (some n) rows i)) ≡ some n
reanchor-name n rows i h = elim (Option-cases (position n rows)) [
  | inl absent ↦ absurd (true_ne_false h (position-none n rows absent))
  | inr (j, found) ↦ unfold reanchor in rw found (position-name n rows j found)
]
  where
    true_ne_false : {b : Bool} → b ≡ true → b ≡ false → ⊥
    true_ne_false p q = cc

keep_modal-bound :
    (o : Option Modal) (names : List Text) (m : Modal) (n : Text)
    → keep_modal o names ≡ some m
    → bound_name m ≡ some n
    → contains names n ≡ true
keep_modal-bound none names m n e b = unfold keep_modal in cc
keep_modal-bound (some m') names m n e b = elim (Option-cases (bound_name m')) [
  | inl free ↦ unfold keep_modal in ground (arith, e, b, free)
  | inr (n', bound) ↦ unfold keep_modal in ground (arith, e, b, bound)
]

-- A new list is shown; the selection is in range and follows its instance as long as that is
-- listed; a modal that stays open is about no instance or about a listed one.
pub list_instances-Listed :
    (rows : List InstanceSummary) (s : AppState) → Listed rows s (list_instances rows s)
list_instances-Listed rows s = record {
  shown = unfold list_instances in refl;
  in_range = unfold list_instances in reanchor-lt (selected_name s) rows s.selected;
  follows = λ n e listed.
      unfold list_instances selected_name in rw e (reanchor-name n rows s.selected listed);
  modal_bound =
      λ m n e b. keep_modal-bound s.modal (map row_name rows) m n (unfold list_instances in e) b;
}

pub apply_event-InList :
    (env : Env) (ev : Event) (s : Session) → InList s.app → InList (apply_event env ev s).app
unfolding apply_event refresh_status finish_op
apply_event-InList env (key k) s h = handle_key-InList env k s h
apply_event-InList env (instances_listed rows) s h = (list_instances-Listed rows s.app).in_range
apply_event-InList env (status_refreshed name status) s h = ground arith
apply_event-InList env (op_finished name kind none) s h = h
apply_event-InList env (op_finished name kind (some msg)) s h = h
apply_event-InList env tick s h = h
apply_event-InList env (snapshots_refreshed name view) s h = h
apply_event-InList env (op_started name kind) s h = h
apply_event-InList env (refresh_failed name) s h = h
apply_event-InList env (self_update_done u l c) s h = h
apply_event-InList env (self_update_error msg) s h = h
apply_event-InList env (disk_health_refreshed d) s h = h
apply_event-InList env (smart_refreshed d) s h = h
