-- ===== src/Commands/Resize/Rollback.antt =====
-- A resize changes the preset, or leaves the state as it was.
use mathlib.Core.Path.{subst}
use pg_forge_cli.Base.{Bool, true, false, ◌≡◌, refl, sym, ap, ◌∙◌, Text, arith, if◌then◌else◌}
use pg_forge_cli.Domain.Instance.{validate_name}
use pg_forge_cli.Domain.Preset.{Preset, preset_eq}
use pg_forge_cli.Error.{Result, ok, err, io, ◌>>=◌, anyhow, already_on_preset}
use pg_forge_cli.State.Store.{
  Disk, InstanceState, load_under, save_under, save_changed, update_loaded, update_under,
}
use pg_forge_cli.State.Same.{SameFiles, load_under-SameFiles}
use pg_forge_cli.State.Updates.{load_under-save_under, name_valid}
use pg_forge_cli.Docker.Engine.{World, Action, only_if, continue, rescued, fail, done, ignore, ◌>>◌}
use pg_forge_cli.Commands.Host.{Host}
use pg_forge_cli.Commands.Rotate.{rotate}
use pg_forge_cli.Commands.Rotate.States.{rotate-IsKeeping}
use pg_forge_cli.Commands.Resize.{with_preset, set_preset, rotate_or_back, resize_loaded, resize}

ok_same : (s t : InstanceState) → ok t ≡ ok s → s ≡ t
ok_same s t e = cc

-- What a disk grants to an update of a well-named instance.
pub record Writable (disk : Disk) (name : Text) (s : InstanceState) : Type 0 where
  pub loads : load_under disk name ≡ ok s
  pub named : s.instance.name ≡ name
  pub lock : disk.can_lock ≡ true
  pub write : disk.can_write ≡ true

abbrev pub preset_set : Preset → InstanceState → InstanceState
preset_set p s = record s { instance = record s.instance { preset = p } }

save_under-succeeds :
    (disk : Disk) (name : Text) (s t : InstanceState)
    → Writable disk name s
    → t.instance.name ≡ name
    → ((save_under disk t).0 ≡ ok tt)
      × ((save_under disk t).1.can_lock ≡ true)
      × ((save_under disk t).1.can_write ≡ true)
unfolding save_under load_under
save_under-succeeds disk name s t h e = ground (arith, h.loads, h.named, h.lock, h.write, e)

saved-Writable :
    (disk : Disk) (name : Text) (s t : InstanceState)
    → Writable disk name s
    → t.instance.name ≡ name
    → Writable (save_under disk t).1 name t
saved-Writable disk name s t h e = record {
  loads =
      ap (load_under (save_under disk t).1) (sym e)
      ∙ load_under-save_under disk t (save_under-succeeds disk name s t h e).0;
  named = e;
  lock = (save_under-succeeds disk name s t h e).1;
  write = (save_under-succeeds disk name s t h e).2;
}

save_changed-ok :
    (disk : Disk) (t : InstanceState)
    → (save_under disk t).0 ≡ ok tt
    → save_changed disk (ok t) ≡ (ok t, (save_under disk t).1)
save_changed-ok disk t h = ap (λ r. (r >>= (λ _. ok t), (save_under disk t).1)) h

locked_update :
    (disk : Disk) (f : InstanceState → Result InstanceState) (s : InstanceState) (b : Bool)
    (r : Result InstanceState)
    → b ≡ true
    → r ≡ ok s
    → (if b then update_loaded disk f r else (err io, disk)) ≡ save_changed disk (f s)
unfolding update_loaded
locked_update disk f s true (ok t) h e = ap (λ z. save_changed disk (f z)) (sym (ok_same s t e))
locked_update disk f s true (err x) h e = cc
locked_update disk f s false r h e = cc

-- The update that sets a preset succeeds.
set_preset-writes :
    (disk : Disk) (name : Text) (s : InstanceState) (p : Preset)
    → Writable disk name s
    → update_under disk name (with_preset p)
      ≡ (ok (preset_set p s), (save_under disk (preset_set p s)).1)
unfolding update_under
set_preset-writes disk name s p h =
    locked_update disk (with_preset p) s disk.can_lock (load_under disk name) h.lock h.loads
    ∙ save_changed-ok disk (preset_set p s)
        (save_under-succeeds disk name s (preset_set p s) h h.named).0

-- A rotation takes nothing of that away.
Writable-kept :
    (d e : Disk) (name : Text) (s : InstanceState)
    → SameFiles d e
    → Writable d name s
    → Writable e name s
Writable-kept d e name s h k = record {
  loads = load_under-SameFiles d e name h ∙ k.loads;
  named = k.named;
  lock = h.lock ∙ k.lock;
  write = h.write ∙ k.write;
}

-- What a resize leaves behind.
abbrev pub Resized : Text → InstanceState → Preset → Result (Preset × Preset) × World → Type 0
Resized name s new (ok pair, w) =
    (pair ≡ (s.instance.preset, new)) × (load_under w.disk name ≡ ok (preset_set new s))
Resized name s new (err e, w) = load_under w.disk name ≡ ok s

rolled_back :
    (name : Text) (s : InstanceState) (new : Preset) (w : World)
    → Writable w.disk name (preset_set new s)
    → load_under (ignore (set_preset name s.instance.preset) w).1.disk name ≡ ok s
rolled_back name s new w h =
    ap (λ p. load_under p.1 name) (set_preset-writes w.disk name (preset_set new s) old h)
    ∙ (saved-Writable w.disk name (preset_set new s) s h h.named).loads
  where
    old : Preset
    old = s.instance.preset

after_rotation :
    (host : Host) (name : Text) (s : InstanceState) (new : Preset) (p : Result (Unit {0}) × World)
    → Writable p.1.disk name (preset_set new s)
    → Resized name s new (
        continue
          (rescued p (λ e. ignore (set_preset name s.instance.preset) >> fail e))
          (λ _. done (s.instance.preset, new)))
after_rotation host name s new (ok u, w) h = (refl, h.loads)
after_rotation host name s new (err e, w) h = rolled_back name s new w h

resize_same :
    (host : Host) (name : Text) (s : InstanceState) (new : Preset) (w : World) (b : Bool)
    → Writable w.disk name s
    → Resized name s new (
        continue (only_if b (fail (anyhow (already_on_preset name s.instance.preset))) w) (λ _ v.
          continue (set_preset name new v) (λ _ u.
            continue
              (rotate_or_back host name s.instance.preset u)
              (λ _. done (s.instance.preset, new)))))
unfolding rotate_or_back
resize_same host name s new w true h = h.loads
resize_same host name s new w false h =
    subst (λ q. Resized name s new (continue (q.0, record w { disk = q.1 }) rotating))
      (sym (set_preset-writes w.disk name s new h))
      (after_rotation host name s new (rotate host name written) (
        Writable-kept written.disk (rotate host name written).1.disk name (preset_set new s)
          (rotate-IsKeeping host name written)
          (saved-Writable w.disk name s (preset_set new s) h h.named)))
  where
    written : World
    written = record w { disk = (save_under w.disk (preset_set new s)).1 }

    rotating : InstanceState → Action (Preset × Preset)
    rotating _ u =
        continue (rotate_or_back host name s.instance.preset u) (λ _. done (s.instance.preset, new))

resize_read :
    (host : Host) (name : Text) (s : InstanceState) (new : Preset) (w : World)
    (r : Result InstanceState)
    → r ≡ ok s
    → Writable w.disk name s
    → Resized name s new (continue (r, w) (λ t. resize_loaded host name new t.instance.preset))
unfolding resize_loaded
resize_read host name s new w (ok t) e h =
    subst (λ z. Resized name s new (resize_loaded host name new z.instance.preset w))
      (ok_same s t e) (resize_same host name s new w (preset_eq s.instance.preset new) h)
resize_read host name s new w (err x) e h = cc

resize_checked :
    (host : Host) (name : Text) (s : InstanceState) (new : Preset) (w : World)
    (v : Result (Unit {0}))
    → v ≡ ok tt
    → Writable w.disk name s
    → Resized name s new (
        continue
          (v, w)
          (λ _ a.
            continue
              (load_under a.disk name, a)
              (λ t. resize_loaded host name new t.instance.preset)))
resize_checked host name s new w (ok u) f h =
    resize_read host name s new w (load_under w.disk name) h.loads h
resize_checked host name s new w (err x) f h = cc

-- On a disk that can be locked and written, a resize of an instance that loads under its own name
-- answers the old and the new preset, and the instance is then loaded with the new one; or it
-- answers an error, and the instance loads as it did before.
pub resize-Resized :
    (host : Host) (name : Text) (s : InstanceState) (new : Preset) (w : World)
    → Writable w.disk name s
    → Resized name s new (resize host name new w)
unfolding resize
resize-Resized host name s new w h =
    resize_checked host name s new w (validate_name name) (name_valid w.disk name s h.loads) h
