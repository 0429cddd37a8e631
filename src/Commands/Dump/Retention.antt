-- ===== src/Commands/Dump/Retention.antt =====
-- Which dumps a retention removes.
use pg_forge_cli.Base.{
  ℕ, zero, suc, ◌+◌, ◌-◌, ◌<◌, ◌≡◌, refl, ◌∙◌, min, true, false, Text, text_eq, text_lt, List, [],
  ◌∷◌, length, take, drop, All, leb, arith, inl, inr, Bool-cases, if◌then◌else◌,
}
use pg_forge_cli.Commands.Dump.{insert_sorted, sort, dumps_to_prune}

text_lt_trans : (s t u : Text) → text_lt s t ≡ false → text_lt t u ≡ false → text_lt s u ≡ false
unfolding text_lt
text_lt_trans s t [] p q = refl
text_lt_trans s [] (c ∷ u) p q = cc
text_lt_trans [] (b ∷ t) (c ∷ u) p q = cc
text_lt_trans (a ∷ s) (b ∷ t) (c ∷ u) p q = ground (arith, p, q, text_lt_trans s t u)

text_lt_asym : (s t : Text) → text_lt s t ≡ true → text_lt t s ≡ false
unfolding text_lt
text_lt_asym s [] h = cc
text_lt_asym [] (d ∷ t) h = refl
text_lt_asym (c ∷ s) (d ∷ t) h = ground (arith, h, text_lt_asym s t)

-- Each is no later than those behind it.
abbrev pub NoLater : Text → List Text → Type 0
NoLater s ts = All (λ t. text_lt t s ≡ false) ts

abbrev pub IsSorted : List Text → Type 0
IsSorted [] = Unit
IsSorted (s ∷ ts) = NoLater s ts × IsSorted ts

NoLater-trans : (s t : Text) (ts : List Text) → text_lt t s ≡ false → NoLater t ts → NoLater s ts
NoLater-trans s t [] h g = tt
NoLater-trans s t (u ∷ ts) h (p, g) = (text_lt_trans u t s p h, NoLater-trans s t ts h g)

insert_sorted-NoLater :
    (x y : Text) (ys : List Text)
    → text_lt x y ≡ false
    → NoLater y ys
    → NoLater y (insert_sorted x ys)
unfolding insert_sorted
insert_sorted-NoLater x y [] h g = (h, tt)
insert_sorted-NoLater x y (z ∷ ys) h (p, g) = elim (Bool-cases (text_lt z x)) [
  | inl before ↦ rw before (p, insert_sorted-NoLater x y ys h g)
  | inr behind ↦ rw behind (h, (p, g))
]

insert_sorted-IsSorted : (x : Text) (ys : List Text) → IsSorted ys → IsSorted (insert_sorted x ys)
unfolding insert_sorted
insert_sorted-IsSorted x [] h = (tt, tt)
insert_sorted-IsSorted x (y ∷ ys) (p, h) = elim (Bool-cases (text_lt y x)) [
  | inl before ↦
      rw before
        (insert_sorted-NoLater x y ys (text_lt_asym y x before) p, insert_sorted-IsSorted x ys h)
  | inr behind ↦ rw behind ((behind, NoLater-trans x y ys behind p), (p, h))
]

sort-IsSorted : (xs : List Text) → IsSorted (sort xs)
unfolding sort
sort-IsSorted [] = tt
sort-IsSorted (x ∷ xs) = insert_sorted-IsSorted x (sort xs) (sort-IsSorted xs)

-- How often a name occurs.
unfoldable pub count : Text → List Text → ℕ
count t [] = 0
count t (x ∷ xs) = let rest = count t xs in if text_eq x t then suc rest else rest

count-insert_sorted :
    (t x : Text) (ys : List Text) → count t (insert_sorted x ys) ≡ count t (x ∷ ys)
unfolding count insert_sorted
count-insert_sorted t x [] = refl
count-insert_sorted t x (y ∷ ys) = ground (arith, count-insert_sorted t x ys)

count-sort : (t : Text) (xs : List Text) → count t (sort xs) ≡ count t xs
unfolding count sort
count-sort t [] = refl
count-sort t (x ∷ xs) = ground (arith, count-insert_sorted t x (sort xs), count-sort t xs)

count-take-drop :
    (t : Text) (k : ℕ) (xs : List Text) → count t (take k xs) + count t (drop k xs) ≡ count t xs
unfolding count
count-take-drop t zero xs = omega arith
count-take-drop t (suc k) [] = omega arith
count-take-drop t (suc k) (x ∷ xs) = ground (arith, count-take-drop t k xs)

NoLater-drop : (s : Text) (k : ℕ) (ts : List Text) → NoLater s ts → NoLater s (drop k ts)
NoLater-drop s zero ts h = h
NoLater-drop s (suc k) [] h = tt
NoLater-drop s (suc k) (t ∷ ts) (p, h) = NoLater-drop s k ts h

take-drop-NoLater :
    (k : ℕ) (xs : List Text) → IsSorted xs → All (λ s. NoLater s (drop k xs)) (take k xs)
take-drop-NoLater zero xs h = tt
take-drop-NoLater (suc k) [] h = tt
take-drop-NoLater (suc k) (x ∷ xs) (p, h) = (NoLater-drop x k xs p, take-drop-NoLater k xs h)

length-drop : (k : ℕ) (xs : List Text) → length (drop k xs) ≡ length xs - k
length-drop zero xs = omega arith
length-drop (suc k) [] = omega arith
length-drop (suc k) (x ∷ xs) = omega (arith, length-drop k xs)

length-insert_sorted : (x : Text) (ys : List Text) → length (insert_sorted x ys) ≡ suc (length ys)
unfolding insert_sorted
length-insert_sorted x [] = refl
length-insert_sorted x (y ∷ ys) = ground (arith, length-insert_sorted x ys)

length-sort : (xs : List Text) → length (sort xs) ≡ length xs
unfolding sort
length-sort [] = refl
length-sort (x ∷ xs) = omega (arith, length-insert_sorted x (sort xs), length-sort xs)

-- A split of the files into those to remove and those to keep.
pub record Pruned (files : List Text) (n : ℕ) (removed kept : List Text) : Type 0 where
  pub complete : (t : Text) → count t removed + count t kept ≡ count t files
  pub enough : length kept ≡ min n (length files)
  pub oldest : All (λ s. NoLater s kept) removed

-- What is kept: all the files of an unlimited or short list, else the last of the sorted ones.
abbrev pub kept_of : List Text → ℕ → List Text
kept_of files n = drop (length files - n) (sort files)

prune-Pruned :
    (files : List Text) (n : ℕ)
    → Pruned files n (take (length files - n) (sort files)) (kept_of files n)
prune-Pruned files n = record {
  complete = λ t. count-take-drop t (length files - n) (sort files) ∙ count-sort t files;
  enough = omega (arith, length-drop (length files - n) (sort files), length-sort files);
  oldest = take-drop-NoLater (length files - n) (sort files) (sort-IsSorted files);
}

take_zero : (k : ℕ) (xs : List Text) → k ≡ 0 → take k xs ≡ []
take_zero k xs e = rw e refl

-- The early return of a short list answers what the rest would.
dumps_to_prune-take :
    (files : List Text) (n : ℕ)
    → 0 < n
    → dumps_to_prune files n ≡ take (length files - n) (sort files)
unfolding dumps_to_prune
dumps_to_prune-take files n pos = elim (Bool-cases (leb (length files) n)) [
  | inl short ↦ ground (arith, pos, short, take_zero (length files - n) (sort files))
  | inr long ↦ ground (arith, pos, long)
]

-- With a positive limit, the files split into those that are removed and as many as the limit
-- says (or all, if there are fewer), and no removed name sorts behind a kept one.
pub dumps_to_prune-Pruned :
    (files : List Text) (n : ℕ) → 0 < n → Pruned files n (dumps_to_prune files n) (kept_of files n)
dumps_to_prune-Pruned files n pos = rw (dumps_to_prune-take files n pos) (prune-Pruned files n)
