-- ===== src/Commands/Dump/Paths/Partial.antt =====
-- The partial file is not the final one.
use pg_forge_cli.Base.{
  ◌≡◌, refl, ℕ, true, false, Text, text_eq, text_eq_iff, codes, [], ◌∷◌, ◌++◌, some, Bool-cases,
  inl, inr,
}
use pg_forge_cli.Commands.Dump.Paths.{before_last, stem_of, is_file_name, with_extension}

before_last-partial : (s : Text) → before_last 46 (s ++ codes ".partial") ≡ some s
unfolding before_last
before_last-partial [] = refl
before_last-partial (c ∷ s) = rw (before_last-partial s) refl

append_longer : (s t : Text) (c : ℕ) → ¬ (s ++ c ∷ t ≡ s)
append_longer [] t c h = cc
append_longer (d ∷ s) t c h = append_longer s t c cc

before_last-pid :
    (s pid : Text) → before_last 46 (s ++ 46 ∷ (pid ++ codes ".partial")) ≡ some (s ++ 46 ∷ pid)
unfolding before_last
before_last-pid [] pid = before_last-partial (46 ∷ pid)
before_last-pid (c ∷ s) pid = rw (before_last-pid s pid) refl

stem_of-partial : (s pid : Text) → stem_of (s ++ 46 ∷ (pid ++ codes ".partial")) ≡ s ++ 46 ∷ pid
unfolding stem_of before_last
stem_of-partial [] pid = rw (before_last-partial pid, stem_of) refl
stem_of-partial (c ∷ s) pid = rw (before_last-pid s pid, stem_of) refl

untaken : (name pid : Text) → stem_of name ++ 46 ∷ (pid ++ codes ".partial") ≡ name → ⊥
untaken name pid same =
    append_longer (stem_of name) pid 46 (cc (same, stem_of-partial (stem_of name) pid))

pub with_extension-untaken :
    (name pid : Text)
    → is_file_name name ≡ true
    → text_eq (with_extension name (pid ++ codes ".partial")) name ≡ false
unfolding with_extension
with_extension-untaken name pid named =
    rw named (elim (Bool-cases (text_eq (stem_of name ++ 46 ∷ (pid ++ codes ".partial")) name)) [
      | inl same ↦ absurd (untaken name pid ((text_eq_iff _ _).0 same))
      | inr other ↦ other
    ])
