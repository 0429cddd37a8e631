-- ===== src/Disk/Percent.antt =====
-- The used percentage of a mount.
use native.Mathlib.Nat.{div-add-mod', mod-lt, mul-le-mul_right}
use pg_forge_cli.Base.{ℕ, ◌+◌, ◌-◌, ◌*◌, ◌/◌, ◌≤◌, ◌<◌, ◌≡◌, ◌⊎◌, inl, inr, min, max_u64, arith}
use pg_forge_cli.Disk.Health.{compute_pct}

-- `p` is the quotient rounded up.
pub record IsCeiling (numerator divisor p : ℕ) : Type 0 where
  pub enough : numerator ≤ p * divisor
  pub least : p * divisor < numerator + divisor

ceiling : (x d : ℕ) → 0 < d → IsCeiling x d ((x + (d - 1)) / d)
ceiling x d h = record {
  enough = omega (arith, div-add-mod' (x + (d - 1)) d, mod-lt (x + (d - 1)) h, h);
  least = omega (arith, div-add-mod' (x + (d - 1)) d, mod-lt (x + (d - 1)) h, h);
}

-- The quotient of at most a hundred parts is at most a hundred.
ceiling-le : (x d p : ℕ) → 0 < d → x ≤ 100 * d → IsCeiling x d p → p ≤ 100
ceiling-le x d p pos le c = elim (le_or_gt p 100) [
  | inl small ↦ small
  | inr large ↦ omega (arith, pos, le, c.least, mul-le-mul_right d large)
]
  where
    le_or_gt : (m n : ℕ) → (m ≤ n) ⊎ (n < m)
    le_or_gt m n = ground arith

-- The clamps do nothing then.
compute_pct-quotient :
    (total free : ℕ)
    → 0 < total
    → (total - free) * 100 ≤ max_u64
    → ((total - free) * 100 + (total - 1)) / total ≤ 100
    → compute_pct total free ≡ ((total - free) * 100 + (total - 1)) / total
unfolding compute_pct
compute_pct-quotient total free pos fits le =
    ground (arith, pos, fits, le, min_eq ((total - free) * 100) max_u64)
  where
    min_eq : (a b : ℕ) → a ≤ b → min a b ≡ a
    min_eq a b h = omega (arith, h)

-- As long as a hundred times the used bytes fit a `u64`, the percentage is the used share of the
-- whole, rounded up, and at most 100.
pub compute_pct-IsCeiling :
    (total free : ℕ)
    → 0 < total
    → (total - free) * 100 ≤ max_u64
    → IsCeiling ((total - free) * 100) total (compute_pct total free)
      × (compute_pct total free ≤ 100)
compute_pct-IsCeiling total free pos fits =
    let c = ceiling ((total - free) * 100) total pos in
    let le = ceiling-le ((total - free) * 100) total _ pos (omega arith) c in
    rw (compute_pct-quotient total free pos fits le) (c, le)
