-- ===== src/Docker/Engine/Preserves.antt =====
-- What every call of a command keeps, the command keeps: a relation between the worlds before and
-- after that is reflexive and transitive is carried over `>>=`.
use pg_forge_cli.Base.{Bool, true, false}
use pg_forge_cli.Error.{PgForgeError, Result, ok, err}
use pg_forge_cli.Docker.Engine.{World, Action, continue, ◌>>=◌, only_if, rescue, rescued}

module _ (R : World → World → Type 0) (R-refl : (w : World) → R w w)
    (R-trans : (u v w : World) → R u v → R v w → R u w) where
  abbrev pub Preserves {ℓ} : {A : Type ℓ} → Action A → Type 0
  Preserves m = (w : World) → R w (m w).1

  continue-Preserves {ℓ κ} :
      {A : Type ℓ} {B : Type κ} (u : World) (p : Result A × World) (f : A → Action B)
      → R u p.1
      → ((a : A) → Preserves (f a))
      → R u (continue p f).1
  continue-Preserves u (ok a, w) f h k = R-trans u w _ h (k a w)
  continue-Preserves u (err e, w) f h k = h

  pub bind-Preserves {ℓ κ} :
      {A : Type ℓ} {B : Type κ} (m : Action A) (f : A → Action B)
      → Preserves m
      → ((a : A) → Preserves (f a))
      → Preserves (m >>= f)
  bind-Preserves m f h k w = continue-Preserves w (m w) f (h w) k

  pub only_if-Preserves : (b : Bool) (m : Action (Unit {0})) → Preserves m → Preserves (only_if b m)
  only_if-Preserves true m h = h
  only_if-Preserves false m h = R-refl

  rescued-Preserves {ℓ} :
      {A : Type ℓ} (u : World) (p : Result A × World) (f : PgForgeError → Action A)
      → R u p.1
      → ((e : PgForgeError) → Preserves (f e))
      → R u (rescued p f).1
  rescued-Preserves u (ok a, w) f h k = h
  rescued-Preserves u (err e, w) f h k = R-trans u w _ h (k e w)

  pub rescue-Preserves {ℓ} :
      {A : Type ℓ} (m : Action A) (f : PgForgeError → Action A)
      → Preserves m
      → ((e : PgForgeError) → Preserves (f e))
      → Preserves (rescue m f)
  rescue-Preserves m f h k w = rescued-Preserves w (m w) f (h w) k
