-- ===== src/Commands/Kept.antt =====
-- Two relations between the worlds before and after a command: the states and snapshots of all
-- instances are the same, and every call that was made passes a test.
pub mod Waits
pub mod Parts
use pg_forge_cli.Base.{Bool, true, ◌≡◌, List, all, arith}
use pg_forge_cli.Error.{PgForgeError, Result}
use pg_forge_cli.State.Store.{Disk, DiskStep}
use pg_forge_cli.State.Same.{SameFiles, SameFiles-refl, SameFiles-trans, IsConfWrite}
use pg_forge_cli.Docker.Engine.{Step, World, Action, ◌>>=◌, writing, log, only_if, rescue}
use pg_forge_cli.Docker.Engine.Preserves.{bind-Preserves, only_if-Preserves, rescue-Preserves}

abbrev pub Same : World → World → Type 0
Same u v = SameFiles u.disk v.disk

Same-refl : (w : World) → Same w w
Same-refl w = SameFiles-refl w.disk

Same-trans : (u v w : World) → Same u v → Same v w → Same u w
Same-trans u v w h k = SameFiles-trans u.disk v.disk w.disk h k

-- A command that leaves the states and the snapshots alone.
abbrev pub IsKeeping {ℓ} : {A : Type ℓ} → Action A → Type 0
IsKeeping m = (w : World) → Same w (m w).1

pub bind-IsKeeping {ℓ κ} :
    {A : Type ℓ} {B : Type κ} (m : Action A) (f : A → Action B)
    → IsKeeping m
    → ((a : A) → IsKeeping (f a))
    → IsKeeping (m >>= f)
bind-IsKeeping = bind-Preserves Same Same-refl Same-trans

pub only_if-IsKeeping : (b : Bool) (m : Action (Unit {0})) → IsKeeping m → IsKeeping (only_if b m)
only_if-IsKeeping = only_if-Preserves Same Same-refl Same-trans

pub rescue-IsKeeping {ℓ} :
    {A : Type ℓ} (m : Action A) (f : PgForgeError → Action A)
    → IsKeeping m
    → ((e : PgForgeError) → IsKeeping (f e))
    → IsKeeping (rescue m f)
rescue-IsKeeping = rescue-Preserves Same Same-refl Same-trans

-- A call of the engine, a question and a read do not touch the disk.
pub same : (w : World) → SameFiles w.disk w.disk
same w = SameFiles-refl w.disk

pub writing-IsKeeping : (f : Disk → DiskStep (Unit {0})) → IsConfWrite f → IsKeeping (writing f)
writing-IsKeeping f h w = h w.disk

-- A write under `conf/` with what follows it.
pub written-IsKeeping {ℓ} :
    {B : Type ℓ} (f : Disk → DiskStep (Unit {0})) (g : Unit {0} → Action B)
    → IsConfWrite f
    → ((u : Unit {0}) → IsKeeping (g u))
    → IsKeeping (writing f >>= g)
written-IsKeeping f g h k = bind-IsKeeping (writing f) g (writing-IsKeeping f h) k

module _ (p : Step → Bool) where
  abbrev pub Passed : World → World → Type 0
  Passed u v = all p u.steps ≡ true → all p v.steps ≡ true

  Passed-refl : (w : World) → Passed w w
  Passed-refl w h = h

  Passed-trans : (u v w : World) → Passed u v → Passed v w → Passed u w
  Passed-trans u v w h k e = k (h e)

  -- A command whose calls all pass the test.
  abbrev pub IsPassing {ℓ} : {A : Type ℓ} → Action A → Type 0
  IsPassing m = (w : World) → all p w.steps ≡ true → all p (m w).1.steps ≡ true

  pub bind-IsPassing {ℓ κ} :
      {A : Type ℓ} {B : Type κ} (m : Action A) (f : A → Action B)
      → IsPassing m
      → ((a : A) → IsPassing (f a))
      → IsPassing (m >>= f)
  bind-IsPassing = bind-Preserves Passed Passed-refl Passed-trans

  pub only_if-IsPassing : (b : Bool) (m : Action (Unit {0})) → IsPassing m → IsPassing (only_if b m)
  only_if-IsPassing = only_if-Preserves Passed Passed-refl Passed-trans

  pub rescue-IsPassing {ℓ} :
      {A : Type ℓ} (m : Action A) (f : PgForgeError → Action A)
      → IsPassing m
      → ((e : PgForgeError) → IsPassing (f e))
      → IsPassing (rescue m f)
  rescue-IsPassing = rescue-Preserves Passed Passed-refl Passed-trans

  pub log-IsPassing {ℓ} :
      {A : Type ℓ} (st : Step) (f : List Step → Result A) → p st ≡ true → IsPassing (log st f)
  unfolding all
  log-IsPassing st f h w k = ground (arith, h, k)
