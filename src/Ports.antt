-- ===== src/Ports.antt =====
-- ports.rs: the first free port of a range.
use pg_forge_cli.Base.{
  ℕ, zero, suc, ◌+◌, ◌-◌, ◌≤◌, ◌<◌, ◌≡◌, refl, Bool, true, false, List, ◌==◌, any, arith,
  Bool-cases, inl, inr, sym, ◌∙◌, if◌then◌else◌,
}
use mathlib.Core.Bool.{false≢true}
use mathlib.Core.Path.{subst}
use pg_forge_cli.Error.{Result, ok, err, no_free_port}

abbrev pub is_taken : List ℕ → ℕ → Bool
is_taken taken p = any (λ q. q == p) taken

-- What the operating system answers to a bind of a port is the argument `probe`.
module _ (taken : List ℕ) (probe : ℕ → Bool) where
  -- `for p in start..end`, with the rounds that are left
  unfoldable pub scan : ℕ → ℕ → ℕ → ℕ → Result ℕ
  scan zero p start end = err (no_free_port start end)
  scan (suc left) p start end =
      let rest = scan left (p + 1) start end in
      if is_taken taken p then rest else if probe p then ok p else rest

  unfoldable pub allocate_port : ℕ → ℕ → Result ℕ
  unfolding scan
  allocate_port start end = scan (end - start) start start end

  -- What a free port is, independently of the search.
  pub record IsFree (p : ℕ) : Type 0 where
    pub untaken : is_taken taken p ≡ false
    pub bindable : probe p ≡ true

  pub record IsFirstFree (start end p : ℕ) : Type 0 where
    pub above : start ≤ p
    pub below : p < end
    pub free : IsFree p
    pub first : (q : ℕ) → start ≤ q → q < p → ¬ IsFree q

  -- An allocation answers the first free port, or says that the range has none.
  abbrev pub Allocated : ℕ → ℕ → ℕ → ℕ → Result ℕ → Type 0
  Allocated from to start end (ok p) = IsFirstFree from to p
  Allocated from to start end (err e) =
      ((q : ℕ) → from ≤ q → q < to → ¬ IsFree q) × (e ≡ no_free_port start end)

  ==→≡ : (a b : ℕ) → (a == b) ≡ true → a ≡ b
  ==→≡ a b h = ground arith

  skip_busy :
      (r : Result ℕ) (p to start end : ℕ)
      → ¬ IsFree p
      → Allocated (p + 1) to start end r
      → Allocated p to start end r
  skip_busy (ok q) p to start end busy found = record {
    above = omega (arith, found.above);
    below = found.below;
    free = found.free;
    first = λ k h lt. elim (Bool-cases (k == p)) [
      | inl same ↦ λ f. busy (subst IsFree (==→≡ k p same) f)
      | inr other ↦ found.first k (ground arith) lt
    ];
  }
  skip_busy (err e) p to start end busy (none_free, same_error) = (
    λ k h lt. elim (Bool-cases (k == p)) [
      | inl same ↦ λ f. busy (subst IsFree (==→≡ k p same) f)
      | inr other ↦ none_free k (ground arith) lt
    ],
    same_error,
  )

  scan-Allocated :
      (left p to start end : ℕ) → p + left ≡ to → Allocated p to start end (scan left p start end)
  unfolding scan
  scan-Allocated zero p to start end h = (λ q above below. absurd (omega arith), refl)
  scan-Allocated (suc left) p to start end h = elim (Bool-cases (is_taken taken p)) [
    | inl taken_p ↦ rw taken_p (
        skip_busy _ p to start end (λ f. false≢true (sym f.untaken ∙ taken_p))
          (scan-Allocated left (p + 1) to start end (omega arith)))
    | inr free_p ↦ rw free_p (elim (Bool-cases (probe p)) [
      | inl bound ↦ rw bound (record {
        above = omega arith;
        below = omega arith;
        free = record { untaken = free_p; bindable = bound };
        first = λ q h1 h2. absurd (omega arith);
      })
      | inr refused ↦ rw refused (
          skip_busy _ p to start end (λ f. false≢true (sym refused ∙ f.bindable))
            (scan-Allocated left (p + 1) to start end (omega arith)))
    ])
  ]

  -- The allocator answers the least port of `[start, end)` that is neither handed out nor in use,
  -- and `NoFreePort` with that range exactly when the range holds no such port.
  pub allocate_port-Allocated :
      (start end : ℕ) → start ≤ end → Allocated start end start end (allocate_port start end)
  unfolding allocate_port
  allocate_port-Allocated start end h =
      scan-Allocated (end - start) start end start end (omega arith)

  taken_or :
      (b c : Bool) (p q : ℕ) (rest : Result ℕ)
      → is_taken taken p ≡ b
      → (if b then rest else if c then ok p else rest) ≡ ok q
      → (rest ≡ ok q → is_taken taken q ≡ false)
      → is_taken taken q ≡ false
  taken_or true c p q rest e h k = k h
  taken_or false true p q rest e h k = ground (arith, e, h)
  taken_or false false p q rest e h k = k h

  scan-untaken : (left p start end q : ℕ) → scan left p start end ≡ ok q → is_taken taken q ≡ false
  unfolding scan
  scan-untaken zero p start end q h = cc
  scan-untaken (suc left) p start end q h =
      taken_or (is_taken taken p) (probe p) p q (scan left (p + 1) start end) refl h
        (scan-untaken left (p + 1) start end q)

  -- Whatever the range, an allocated port is not taken.
  pub allocate_port-untaken :
      (start end q : ℕ) → allocate_port start end ≡ ok q → is_taken taken q ≡ false
  unfolding allocate_port
  allocate_port-untaken start end q h = scan-untaken (end - start) start start end q h
