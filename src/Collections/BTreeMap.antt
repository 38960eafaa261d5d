-- ===== src/Collections/BTreeMap.antt =====
-- Rust's `BTreeMap` over numbers: an association list in ascending order of its keys.
use boardswarm.Prelude.{
  ℕ, ◌+◌, ◌≤◌, ◌<◌, ◌≡◌, refl, Option, none, some, List, [], ◌∷◌, map, arith, ◌==◌, ltb,
  if◌then◌else◌, nat_eq,
}

abbrev pub BTreeMap {ℓ} : Type ℓ → Type ℓ
BTreeMap V = List (ℕ × V)

module _ {ℓ} {V : Type ℓ} where
  unfoldable pub get : BTreeMap V → ℕ → Option V
  get [] k = none
  get ((j, v) ∷ m) k = if j == k then some v else get m k

  unfoldable pub insert : BTreeMap V → ℕ → V → BTreeMap V
  insert [] k v = (k, v) ∷ []
  insert ((j, w) ∷ m) k v =
      if ltb k j then (k, v) ∷ (j, w) ∷ m else if j == k then (k, v) ∷ m else (j, w) ∷ insert m k v

  unfoldable pub remove : BTreeMap V → ℕ → BTreeMap V
  remove [] k = []
  remove ((j, w) ∷ m) k = let rest = remove m k in if j == k then rest else (j, w) ∷ rest

  unfoldable pub keys : BTreeMap V → List ℕ
  keys m = map (λ e. e.0) m

  -- Every key is at least the bound, and the keys rise strictly.
  abbrev pub Ascending : ℕ → BTreeMap V → Type 0
  Ascending lo [] = Unit {0}
  Ascending lo ((j, v) ∷ m) = (lo ≤ j) × Ascending (j + 1) m

  abbrev pub Below : ℕ → BTreeMap V → Type 0
  Below n [] = Unit {0}
  Below n ((j, v) ∷ m) = (j < n) × Below n m

  pub get-insert :
      (m : BTreeMap V) (k j : ℕ) (v : V)
      → get (insert m k v) j ≡ (if k == j then some v else get m j)
  unfolding get insert
  get-insert [] k j v = refl
  get-insert ((i, w) ∷ m) k j v = ground (arith, get-insert m k j v)

  pub get-remove :
      (m : BTreeMap V) (k j : ℕ) → get (remove m k) j ≡ (if k == j then none else get m j)
  unfolding get remove
  get-remove [] k j = ground arith
  get-remove ((i, w) ∷ m) k j = ground (arith, get-remove m k j)

  pub Ascending-insert :
      (lo : ℕ) (m : BTreeMap V) (k : ℕ) (v : V)
      → lo ≤ k
      → Ascending lo m
      → Ascending lo (insert m k v)
  unfolding insert
  Ascending-insert lo [] k v h a = (h, tt)
  Ascending-insert lo ((j, w) ∷ m) k v h a = ground (arith, Ascending-insert (j + 1) m k v)

  Ascending-mono : (lo hi : ℕ) (m : BTreeMap V) → lo ≤ hi → Ascending hi m → Ascending lo m
  Ascending-mono lo hi [] h a = tt
  Ascending-mono lo hi ((j, w) ∷ m) h a = (omega arith, a.1)

  pub Ascending-remove :
      (lo : ℕ) (m : BTreeMap V) (k : ℕ) → Ascending lo m → Ascending lo (remove m k)
  unfolding remove
  Ascending-remove lo [] k a = tt
  Ascending-remove lo ((j, w) ∷ m) k a =
      ground (arith, Ascending-remove (j + 1) m k, Ascending-mono lo (j + 1) (remove m k))

  pub Below-insert :
      (n : ℕ) (m : BTreeMap V) (k : ℕ) (v : V) → k < n → Below n m → Below n (insert m k v)
  unfolding insert
  Below-insert n [] k v h b = (h, tt)
  Below-insert n ((j, w) ∷ m) k v h b = ground (arith, Below-insert n m k v)

  pub Below-remove : (n : ℕ) (m : BTreeMap V) (k : ℕ) → Below n m → Below n (remove m k)
  unfolding remove
  Below-remove n [] k b = tt
  Below-remove n ((j, w) ∷ m) k b = ground (arith, Below-remove n m k)

  pub Below-mono : (n o : ℕ) (m : BTreeMap V) → n ≤ o → Below n m → Below o m
  Below-mono n o [] h b = tt
  Below-mono n o ((j, w) ∷ m) h b = (omega arith, Below-mono n o m h b.1)

  -- A key at or past the bound is not there.
  pub get_past : (n : ℕ) (m : BTreeMap V) (k : ℕ) → Below n m → n ≤ k → get m k ≡ none
  unfolding get
  get_past n [] k b h = refl
  get_past n ((j, w) ∷ m) k b h = ground (arith, get_past n m k)

  -- Nor is a key under the first one.
  pub get_under : (lo : ℕ) (m : BTreeMap V) (k : ℕ) → Ascending lo m → k < lo → get m k ≡ none
  unfolding get
  get_under lo [] k a h = refl
  get_under lo ((j, w) ∷ m) k a h = ground (arith, get_under (j + 1) m k)
