-- ===== src/Tui/App/Submit/Effects.antt =====
-- What a submitted modal leaves: only a clone form fills the queue of operations, with a valid new
-- name, and only the create wizard fills the queue of creations, with a valid request.
use pg_forge_cli.Base.{
  ℕ, ◌<◌, ◌≡◌, refl, ◌≢◌, Bool, true, false, Text, text_eq, List, [], ◌∷◌, ◌++◌, Option, none, some,
  All, ◌==◌, arith, ◌⊎◌, inl, inr, Bool-cases, Option-cases, if◌then◌else◌,
}
use pg_forge_cli.Base.Decimal.{parse_u8, parse_u8-lt}
use pg_forge_cli.Domain.Instance.{is_valid_name}
use pg_forge_cli.Tui.TextField.{TextField}
use pg_forge_cli.Tui.Types.{
  CreateRequest, CreateForm, clone, Modal, clone_as, upgrade_to, restore_as, create_form,
  schedule_edit, resize_to,
}
use pg_forge_cli.Tui.App.{AppState, Env, Session}
use pg_forge_cli.Tui.App.Submit.{
  submit_taken, submit_clone, submit_upgrade, submit_restore, submit_create, submit_schedule,
  submit_resize, first_bad, request, check_user, check_version, submit_modal, on_app, close,
}

pub record IsValidRequest (r : CreateRequest) : Type 0 where
  pub named : is_valid_name r.name ≡ true
  pub version_pos : 0 < r.pg_version
  pub version_byte : r.pg_version < 256
  pub has_user : text_eq r.app_user [] ≡ false
  pub user_chars : first_bad r.app_user ≡ none

abbrev pub is_clone : Modal → Bool
is_clone (clone_as n t) = true
is_clone _ = false

All-snoc {ℓ κ} :
    {A : Type ℓ} (P : A → Type κ) (xs : List A) (x : A) → All P xs → P x → All P (xs ++ x ∷ [])
All-snoc P [] x h p = (p, tt)
All-snoc P (y ∷ xs) x (q, h) p = (q, All-snoc P xs x h p)

-- The queue of creations holds valid requests only.
abbrev pub CreatesValid : AppState → Type 0
CreatesValid s = All IsValidRequest s.pending_creates

module _ (env : Env) (f : CreateForm) (s : AppState) (valid : CreatesValid s) where
  check_user-valid :
      (v : ℕ) (o : Option ℕ)
      → first_bad f.app_user.buf ≡ o
      → IsValidRequest (request f v) ⊎ (o ≢ none)
      → CreatesValid (check_user env f v o s)
  check_user-valid v (some c) e r = valid
  check_user-valid v none e (inl r) =
      All-snoc IsValidRequest s.pending_creates (request f v) valid r
  check_user-valid v none e (inr differs) = absurd (differs refl)

  good_request :
      (v : ℕ)
      → is_valid_name f.name.buf ≡ true
      → parse_u8 f.pg_version.buf ≡ some v
      → (v == 0) ≡ false
      → text_eq f.app_user.buf [] ≡ false
      → (o : Option ℕ) → first_bad f.app_user.buf ≡ o
      → IsValidRequest (request f v) ⊎ (o ≢ none)
  good_request v named parsed positive user (some c) e = inr (λ h. cc)
  good_request v named parsed positive user none e = inl (record {
    named = named;
    version_pos = ground arith;
    version_byte = parse_u8-lt f.pg_version.buf v parsed;
    has_user = user;
    user_chars = e;
  })

  check_version-valid :
      (o : Option ℕ)
      → is_valid_name f.name.buf ≡ true
      → parse_u8 f.pg_version.buf ≡ o
      → CreatesValid (check_version env f o s)
  check_version-valid none named parsed = valid
  check_version-valid (some v) named parsed = elim (Bool-cases (v == 0)) [
    | inl zero_version ↦ rw zero_version valid
    | inr positive ↦ rw positive (elim (Bool-cases (text_eq f.app_user.buf [])) [
      | inl no_user ↦ rw no_user valid
      | inr user ↦ rw user (
          check_user-valid v (first_bad f.app_user.buf) refl
            (good_request v named parsed positive user (first_bad f.app_user.buf) refl))
    ])
  ]

  submit_create-valid : CreatesValid (submit_create env f s)
  unfolding submit_create
  submit_create-valid = elim (Bool-cases (is_valid_name f.name.buf)) [
    | inl named ↦ rw named (check_version-valid (parse_u8 f.pg_version.buf) named refl)
    | inr bad ↦ rw bad valid
  ]

module _ (env : Env) where
  submit_taken-rows :
      (m : Modal) (s : Session)
      → ((submit_taken env m s).app.instances ≡ s.app.instances)
        × ((submit_taken env m s).app.selected ≡ s.app.selected)
  unfolding submit_taken submit_clone submit_upgrade submit_restore submit_create submit_schedule
      submit_resize
  submit_taken-rows (clone_as n t) s = ground arith
  submit_taken-rows (upgrade_to n t) s = ground arith
  submit_taken-rows (restore_as f) s = ground arith
  submit_taken-rows (create_form f) s = ground arith
  submit_taken-rows (schedule_edit n h k) s = ground arith
  submit_taken-rows (resize_to n p q) s = ground arith
  submit_taken-rows _ s = (refl, refl)

  submit_taken-ops :
      (m : Modal) (s : Session)
      → is_clone m ≡ false
      → (submit_taken env m s).app.pending_ops ≡ s.app.pending_ops
  unfolding submit_taken submit_upgrade submit_restore submit_create submit_schedule submit_resize
  submit_taken-ops (clone_as n t) s h = cc
  submit_taken-ops (upgrade_to n t) s h = ground arith
  submit_taken-ops (restore_as f) s h = ground arith
  submit_taken-ops (create_form f) s h = ground arith
  submit_taken-ops (schedule_edit n h k) s e = ground arith
  submit_taken-ops (resize_to n p q) s h = ground arith
  submit_taken-ops _ s h = refl

  submit_taken-creates :
      (m : Modal) (s : Session) → CreatesValid s.app → CreatesValid (submit_taken env m s).app
  unfolding submit_taken submit_clone submit_upgrade submit_restore submit_schedule submit_resize
  submit_taken-creates (clone_as n t) s h = ground arith
  submit_taken-creates (upgrade_to n t) s h = ground arith
  submit_taken-creates (restore_as f) s h = ground arith
  submit_taken-creates (create_form f) s h = submit_create-valid env f s.app h
  submit_taken-creates (schedule_edit n h k) s v = ground arith
  submit_taken-creates (resize_to n p q) s h = ground arith
  submit_taken-creates _ s h = h

  pub submit_modal-rows :
      (s : Session)
      → ((submit_modal env s).app.instances ≡ s.app.instances)
        × ((submit_modal env s).app.selected ≡ s.app.selected)
  unfolding submit_modal
  submit_modal-rows s = elim (Option-cases s.app.modal) [
    | inl closed ↦ rw closed (refl, refl)
    | inr (m, open_m) ↦ rw open_m (submit_taken-rows m (on_app close s))
  ]

  -- A modal other than a clone form queues no operation.
  pub submit_modal-ops :
      (s : Session) (m : Modal)
      → s.app.modal ≡ some m
      → is_clone m ≡ false
      → (submit_modal env s).app.pending_ops ≡ s.app.pending_ops
  unfolding submit_modal
  submit_modal-ops s m e h = rw e (submit_taken-ops m (on_app close s) h)

  -- A clone form queues the encoded clone if the new name is valid, and nothing otherwise.
  pub submit_modal-clone :
      (s : Session) (source : Text) (input : TextField)
      → s.app.modal ≡ some (clone_as source input)
      → (submit_modal env s).app.pending_ops ≡ (
          if is_valid_name input.buf
          then s.app.pending_ops ++ (source ++ b':' ∷ input.buf, clone) ∷ []
          else s.app.pending_ops)
  unfolding submit_modal
  submit_modal-clone s source input e = rw e (ground arith)

  pub submit_modal-valid :
      (s : Session) → CreatesValid s.app → CreatesValid (submit_modal env s).app
  unfolding submit_modal
  submit_modal-valid s h = elim (Option-cases s.app.modal) [
    | inl closed ↦ rw closed h
    | inr (m, open_m) ↦ rw open_m (submit_taken-creates m (on_app close s) h)
  ]
