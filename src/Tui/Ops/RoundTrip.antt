-- ===== src/Tui/Ops/RoundTrip.antt =====
-- What the dashboard confirms is what the task runs: the texts between them lose nothing.
use pg_forge_cli.Base.{
  ℕ, ◌<◌, ◌≡◌, refl, true, false, Text, text_eq, codes, [], ◌∷◌, ◌++◌, none, some, Lacks, arith,
}
use pg_forge_cli.Base.Lines.{split_once}
use pg_forge_cli.Base.Decimal.{show_u8, parse_u8-show_u8}
use pg_forge_cli.Domain.Instance.{is_valid_name}
use pg_forge_cli.Domain.Instance.Names.{Lacks-of_is_valid_name}
use pg_forge_cli.Domain.Preset.{lowercase_name}
use pg_forge_cli.Domain.Preset.Sizing.{from_str-lowercase_name}
use pg_forge_cli.Tui.Types.{
  clone, clone_as, PendingDestructiveOp, rotate_op, upgrade_op, restore_op, destroy_op, resize_op,
}
use pg_forge_cli.Tui.App.Submit.{encode, submit_modal}
use pg_forge_cli.Tui.App.{Env, Session}
use pg_forge_cli.Tui.TextField.{TextField}
use pg_forge_cli.Tui.Ops.{
  Job, run_rotate, run_clone, run_upgrade, run_restore, run_destroy, run_resize, decode,
}

split_once_at : (c : ℕ) (s t : Text) → Lacks c s → split_once c (s ++ c ∷ t) ≡ some (s, t)
unfolding split_once
split_once_at c [] t h = ground arith
split_once_at c (d ∷ s) t (differs, h) = ground (arith, split_once_at c s t h)

split_once-none : (c : ℕ) (s : Text) → Lacks c s → split_once c s ≡ none
unfolding split_once
split_once-none c [] h = refl
split_once-none c (d ∷ s) (differs, h) = ground (arith, split_once-none c s h)

-- The job that a confirmed operation asks for.
abbrev pub job_of : PendingDestructiveOp → Job
job_of (rotate_op n) = run_rotate n
job_of (upgrade_op n to) = run_upgrade n to
job_of (restore_op n a t) = run_restore n a t
job_of (destroy_op n b) = run_destroy n b
job_of (resize_op n p) = run_resize n p

-- Instance names are valid, and a version is a `u8`.
abbrev pub IsWellNamed : PendingDestructiveOp → Type 0
IsWellNamed (rotate_op n) = Unit
IsWellNamed (upgrade_op n to) = (is_valid_name n ≡ true) × (to < 256)
IsWellNamed (restore_op n a t) = (is_valid_name n ≡ true) × (is_valid_name a ≡ true)
IsWellNamed (destroy_op n b) = is_valid_name n ≡ true
IsWellNamed (resize_op n p) = is_valid_name n ≡ true

module _ (n : Text) (valid : is_valid_name n ≡ true) where
  cut_at_sign : (t : Text) → split_once b'@' (n ++ b'@' ∷ t) ≡ some (n, t)
  cut_at_sign t = split_once_at b'@' n t (Lacks-of_is_valid_name b'@' n refl valid)

  uncut_at_sign : split_once b'@' n ≡ none
  uncut_at_sign = split_once-none b'@' n (Lacks-of_is_valid_name b'@' n refl valid)

  cut_at_colon : (t : Text) → split_once b':' (n ++ b':' ∷ t) ≡ some (n, t)
  cut_at_colon t = split_once_at b':' n t (Lacks-of_is_valid_name b':' n refl valid)

-- Whatever the user confirms, the text that is queued is decoded to the job with the same
-- instance and arguments, if the instance names are valid and a version is a byte.
pub decode-encode :
    (op : PendingDestructiveOp) → IsWellNamed op → decode (encode op).1 (encode op).0 ≡ job_of op
unfolding decode encode
decode-encode (rotate_op n) _ = refl
decode-encode (upgrade_op n to) (valid, byte) =
    ground (arith, cut_at_sign n valid (show_u8 to), parse_u8-show_u8 to byte)
decode-encode (restore_op n a (some t)) (valid, valid_as) =
    ground (arith, cut_at_colon n valid (a ++ b'@' ∷ t), cut_at_sign a valid_as t)
decode-encode (restore_op n a none) (valid, valid_as) =
    ground (arith, cut_at_colon n valid a, uncut_at_sign a valid_as)
decode-encode (destroy_op n true) valid =
    rw (cut_at_sign n valid (codes "delete")) (unfold text_eq in refl)
decode-encode (destroy_op n false) valid = rw (uncut_at_sign n valid) (unfold text_eq in refl)
decode-encode (resize_op n p) valid =
    ground (arith, cut_at_sign n valid (lowercase_name p), from_str-lowercase_name p)

-- A confirmed clone form, of a source with a valid name and for a valid new name, queues one clone,
-- with a text that is decoded to the clone of this source under this name.
pub decode-submit_modal :
    (env : Env) (s : Session) (source : Text) (input : TextField)
    → s.app.modal ≡ some (clone_as source input)
    → is_valid_name source ≡ true
    → is_valid_name input.buf ≡ true
    → (text : Text) × (((submit_modal env s).app.pending_ops
          ≡ s.app.pending_ops ++ (text, clone) ∷ [])
        × (decode clone text ≡ run_clone source input.buf))
unfolding decode submit_modal
decode-submit_modal env s source input shown valid named = (
  source ++ b':' ∷ input.buf,
  (rw (shown, named) refl, ground (arith, cut_at_colon source valid input.buf)),
)
