-- ===== src/Commands/Made.antt =====
-- What create, clone and restore promise of the instance that they make.
use mathlib.Core.Path.{subst}
use pg_forge_cli.Base.{
  ℕ, Bool, true, false, ◌⊎◌, inl, inr, ◌≡◌, ◌≢◌, refl, sym, ap, ◌∙◌, Text, arith, if◌then◌else◌,
}
use pg_forge_cli.Error.{PgForgeError, Result, ok, err, io}
use pg_forge_cli.Config.{GlobalConfig}
use pg_forge_cli.State.Store.{
  Disk, DiskStep, InstanceState, dir_of, load_under, save_under, save_under_locked,
}
use pg_forge_cli.State.Same.{SameFiles, SameFiles-trans, load_under-SameFiles}
use pg_forge_cli.State.Updates.{Saved, IsSaved, SameDirs-refl, SameFiles-SameDirs, save_under-Saved}
use pg_forge_cli.Docker.Engine.{
  Engine, fail, only_if, ◌>>◌, rescued, World, Action, continue, ◌>>=◌, done, reading,
}
use pg_forge_cli.Docker.Cleanup.{cleanup_partial}
use pg_forge_cli.Commands.Host.{allocate_host_port, container_named, volume_named}
use pg_forge_cli.Commands.HostPort.{allocate_host_port-unshared}
use pg_forge_cli.Commands.Create.Run.{save_made, clean_after}
use pg_forge_cli.Commands.Kept.{IsKeeping}

-- A property of the answer, if there is one.
abbrev pub Holds {ℓ} : {A : Type ℓ} → (A → Type 0) → Result A → Type 0
Holds P (ok a) = P a
Holds P (err e) = Unit

pub continue-Holds {ℓ κ} :
    {A : Type ℓ} {B : Type κ} (P : B → Type 0) (p : Result A × World) (f : A → Action B)
    → ((a : A) (w : World) → Holds P (f a w).0)
    → Holds P (continue p f).0
continue-Holds P (ok a, w) f h = h a w
continue-Holds P (err e, w) f h = tt

pub record IsMade (name : Text) (before : Disk) (s : InstanceState) (after : Disk) : Type 0 where
  pub named : s.instance.name ≡ name
  pub loads : load_under after name ≡ ok s
  pub others : (n : Text) → name ≢ n → load_under after n ≡ load_under before n
  pub unshared :
      (n : Text) (t : InstanceState)
      → load_under before n ≡ ok t
      → s.instance.host_port ≢ t.instance.host_port

-- The instance is made although an error is answered: the disk does not grant whole writes, and the
-- state was written before that.
pub record IsLate (name : Text) (before after : Disk) : Type 0 where
  pub refused : before.can_write ≡ false
  pub state : InstanceState
  pub made : IsMade name before state after

-- Made: the state that is answered is that of the name, it is what the name's next load answers,
-- every other name's load answers what it did, and no instance that loaded before has its port.
-- Failed: every load answers what it did, or the instance is made all the same.
abbrev pub Made : Text → Disk → Result InstanceState × World → Type 0
Made name before (ok s, w) = IsMade name before s w.disk
Made name before (err e, w) =
    ((n : Text) → load_under w.disk n ≡ load_under before n) ⊎ IsLate name before w.disk

pub fail-Made :
    (name : Text) (before : Disk) (e : PgForgeError) (w : World)
    → SameFiles before w.disk
    → Made name before (err e, w)
fail-Made name before e w h = inl (λ n. load_under-SameFiles before w.disk n h)

-- What keeps the states may come before.
pub continue-Made {ℓ} :
    {A : Type ℓ} (name : Text) (before : Disk) (p : Result A × World) (f : A → Action InstanceState)
    → SameFiles before p.1.disk
    → ((a : A) (w : World) → p.0 ≡ ok a → SameFiles before w.disk → Made name before (f a w))
    → Made name before (continue p f)
continue-Made name before (ok a, w) f h k = k a w refl h
continue-Made name before (err e, w) f h k = fail-Made name before e w h

-- So may a guard.
pub guarded-Made :
    (name : Text) (before : Disk) (b : Bool) (e : PgForgeError) (w : World)
    (f : Unit {0} → Action InstanceState)
    → SameFiles before w.disk
    → ((u : Unit {0}) → Made name before (f u w))
    → Made name before (continue (only_if b (fail e) w) f)
guarded-Made name before true e w f h k = fail-Made name before e w h
guarded-Made name before false e w f h k = k tt

save_under_locked-Saved :
    (disk : Disk) (s : InstanceState) → Saved disk s (save_under_locked disk s)
unfolding save_under_locked
save_under_locked-Saved disk s = locked disk.can_lock
  where
    locked : (b : Bool) → Saved disk s (if b then save_under disk s else (err io, disk))
    locked true = save_under-Saved disk s
    locked false = inl (SameDirs-refl disk)

same_dir-load_under :
    (d e : Disk) (n : Text) → dir_of e n ≡ dir_of d n → load_under e n ≡ load_under d n
unfolding load_under
same_dir-load_under d e n h = ground (arith, h)

-- A state with the name and the port, as long as it is not saved.
abbrev pub Fits : Text → ℕ → InstanceState → Type 0
Fits name port s = (s.instance.name ≡ name) × (s.instance.host_port ≡ port)

abbrev pub Unshared : Disk → ℕ → Type 0
Unshared before port =
    (n : Text) (t : InstanceState) → load_under before n ≡ ok t → port ≢ t.instance.host_port

saved-IsMade :
    (name : Text) (port : ℕ) (before disk after : Disk) (s : InstanceState)
    → SameFiles before disk
    → Unshared before port
    → Fits name port s
    → IsSaved disk s after
    → IsMade name before s after
saved-IsMade name port before disk after s h unshared (named, ported) saved = record {
  named = named;
  loads = ap (load_under after) (sym named) ∙ saved.loads;
  others = λ n differs.
      same_dir-load_under disk after n (saved.others n (λ e. differs (sym named ∙ e)))
      ∙ load_under-SameFiles before disk n h;
  unshared = λ n t l e. unshared n t l (sym ported ∙ e);
}

-- The last step of the three commands.
pub save_made-Made :
    (name : Text) (port : ℕ) (before : Disk) (s : InstanceState) (w : World)
    → SameFiles before w.disk
    → Unshared before port
    → Fits name port s
    → Made name before (save_made s w)
unfolding save_made
save_made-Made name port before s w h unshared fits =
    answered (save_under_locked w.disk s) (save_under_locked-Saved w.disk s)
  where
    answered :
        (r : DiskStep (Unit {0}))
        → Saved w.disk s r
        → Made name before (continue (r.0, record w { disk = r.1 }) (λ _. done s))
    answered (ok u, after) saved =
        saved-IsMade name port before w.disk after s h unshared fits saved
    answered (err x, after) (inl kept) =
        fail-Made name before x (record w { disk = after })
          (SameFiles-trans before w.disk after h (SameFiles-SameDirs w.disk after kept))
    answered (err x, after) (inr (denied, saved)) = inr (record {
      refused = sym h.write ∙ denied;
      state = s;
      made = saved-IsMade name port before w.disk after s h unshared fits saved;
    })

-- From the allocation of the port on, after what keeps the states.
pub allocated-Made :
    (name : Text) (global : GlobalConfig) (probe : ℕ → Bool) (before : Disk)
    (build : ℕ → Action InstanceState) (w : World)
    → SameFiles before w.disk
    → ((port : ℕ) → IsKeeping (build port))
    → ((port : ℕ) (v : World) → Holds (Fits name port) (build port v).0)
    → Made name before
        ((reading (allocate_host_port global probe) >>= λ port. build port >>= save_made) w)
allocated-Made name global probe before build w h keeping fits =
    continue-Made name before (allocate_host_port global probe w.disk, w)
      (λ port. build port >>= save_made) h (λ port v e k. built port v (build port v) refl e k)
  where
    unshared : (port : ℕ) → allocate_host_port global probe w.disk ≡ ok port → Unshared before port
    unshared port e n t l =
        allocate_host_port-unshared global probe w.disk port n t e
          (load_under-SameFiles before w.disk n h ∙ l)

    built :
        (port : ℕ) (v : World) (p : Result InstanceState × World)
        → build port v ≡ p
        → allocate_host_port global probe w.disk ≡ ok port
        → SameFiles before v.disk
        → Made name before (continue p save_made)
    built port v (ok s, u) made e k =
        save_made-Made name port before s u
          (SameFiles-trans before v.disk u.disk k
            (subst (λ q. SameFiles v.disk q.1.disk) made (keeping port v)))
          (unshared port e) (subst (λ q. Holds (Fits name port) q.0) made (fits port v))
    built port v (err x, u) made e k = fail-Made name before x u (
        SameFiles-trans before v.disk u.disk k
          (subst (λ q. SameFiles v.disk q.1.disk) made (keeping port v)))

-- What a guarded action answers is what the action answers.
pub clean_after-Holds {ℓ} :
    {A : Type ℓ} (P : A → Type 0) (engine : Engine) (name : Text) (m : Action A) (w : World)
    → Holds P (m w).0
    → Holds P (clean_after engine name m w).0
unfolding clean_after cleanup_partial
clean_after-Holds {A = A} P engine name m w h = of_result (m w) h
  where
    cleanup : PgForgeError → Action A
    cleanup e = cleanup_partial engine (container_named name) (volume_named name) name >> fail e

    of_result : (p : Result A × World) → Holds P p.0 → Holds P (rescued p cleanup).0
    of_result (ok a, v) k = k
    of_result (err e, v) k = tt

pub Holds-ok {ℓ} : {A : Type ℓ} (P : A → Type 0) (r : Result A) (a : A) → Holds P r → r ≡ ok a → P a
Holds-ok P (ok b) a h e = subst (Holds P) e h
Holds-ok P (err x) a h e = cc

pub Made-ok :
    (name : Text) (before : Disk) (p : Result InstanceState × World) (s : InstanceState)
    → Made name before p
    → p.0 ≡ ok s
    → IsMade name before s p.1.disk
Made-ok name before (ok t, w) s h e = subst (λ r. Made name before (r, w)) e h
Made-ok name before (err x, w) s h e = cc

pub save_made-Holds :
    (P : InstanceState → Type 0) (s : InstanceState) (w : World) → P s → Holds P (save_made s w).0
unfolding save_made
save_made-Holds P s w h = answered (save_under_locked w.disk s).0
  where
    answered :
        (r : Result (Unit {0}))
        → Holds P
            (continue {B = InstanceState}
              (r, record w { disk = (save_under_locked w.disk s).1 })
              (λ _. done s)).0
    answered (ok tt) = h
    answered (err e) = tt
