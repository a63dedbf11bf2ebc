-- ===== src/Prelude/Assoc.antt =====
-- A `HashMap` with texts as keys, as a list of its entries; the front is what an iteration meets
-- first. An insertion takes the place of an older entry of its key.
use stmp2log.Prelude.{
  ◌+◌, ◌≤◌, ◌≡◌, refl, List, [], ◌∷◌, Option, none, some, Bool, true, false, ◌||◌, length, arith,
  if◌then◌else◌, Bool-cases, inl, inr,
}
use stmp2log.Prelude.Text.{Text, text_eq, text_eq→eq, text_eq_refl}

module _ {ℓ} {V : Type ℓ} where
  unfoldable pub lookup : Text → List (Text × V) → Option V
  lookup k [] = none
  lookup k ((j, v) ∷ m) = if text_eq j k then some v else lookup k m

  unfoldable pub remove : Text → List (Text × V) → List (Text × V)
  remove k [] = []
  remove k ((j, v) ∷ m) = let rest = remove k m in if text_eq j k then rest else (j, v) ∷ rest

  unfoldable pub insert : Text → V → List (Text × V) → List (Text × V)
  unfolding remove
  insert k v m = (k, v) ∷ remove k m

  -- `retain` by the value.
  unfoldable pub retain : (V → Bool) → List (Text × V) → List (Text × V)
  retain p [] = []
  retain p ((j, v) ∷ m) = let rest = retain p m in if p v then (j, v) ∷ rest else rest

  pub lookup-remove_self : (k : Text) (m : List (Text × V)) → lookup k (remove k m) ≡ none
  unfolding lookup remove
  lookup-remove_self k [] = refl
  lookup-remove_self k ((j, v) ∷ m) = ground (arith, lookup-remove_self k m)

  pub lookup-remove_ne :
      (k j : Text) (m : List (Text × V)) → text_eq k j ≡ false → lookup j (remove k m) ≡ lookup j m
  unfolding lookup remove
  lookup-remove_ne k j [] h = refl
  lookup-remove_ne k j ((i, v) ∷ m) h = elim (Bool-cases (text_eq i k)) [
    | inl e ↦ rw e (rw (text_eq→eq i k e) (rw h (lookup-remove_ne k j m h)))
    | inr e ↦ rw e (ground (arith, lookup-remove_ne k j m))
  ]

  pub lookup-insert_self :
      (k : Text) (v : V) (m : List (Text × V)) → lookup k (insert k v m) ≡ some v
  unfolding lookup insert
  lookup-insert_self k v m = rw (text_eq_refl k)

  pub lookup-insert_ne :
      (k j : Text) (v : V) (m : List (Text × V))
      → text_eq k j ≡ false
      → lookup j (insert k v m) ≡ lookup j m
  unfolding lookup insert
  lookup-insert_ne k j v m h = rw h (lookup-remove_ne k j m h)

  -- An entry that is in the map after a `retain` passes its test and was there before.
  pub lookup-retain-none :
      (p : V → Bool) (k : Text) (m : List (Text × V))
      → lookup k m ≡ none
      → lookup k (retain p m) ≡ none
  unfolding lookup retain
  lookup-retain-none p k [] h = refl
  lookup-retain-none p k ((j, v) ∷ m) h = ground (arith, lookup-retain-none p k m)

  pub length-remove : (k : Text) (m : List (Text × V)) → length (remove k m) ≤ length m
  unfolding remove
  length-remove k [] = omega arith
  length-remove k ((j, v) ∷ m) = ground (arith, length-remove k m)

  pub length-retain : (p : V → Bool) (m : List (Text × V)) → length (retain p m) ≤ length m
  unfolding retain
  length-retain p [] = omega arith
  length-retain p ((j, v) ∷ m) = ground (arith, length-retain p m)

  -- A test for a key.
  unfoldable pub has_key : Text → List (Text × V) → Bool
  has_key k [] = false
  has_key k ((j, v) ∷ m) = text_eq j k || has_key k m

  -- A key that is there goes, and the map is shorter.
  pub length-remove_some :
      (k : Text) (m : List (Text × V)) → has_key k m ≡ true → length (remove k m) + 1 ≤ length m
  unfolding has_key remove
  length-remove_some k [] h = cc
  length-remove_some k ((j, w) ∷ m) h = elim (Bool-cases (text_eq j k)) [
    | inl e ↦ rw e (omega (arith, length-remove k m))
    | inr e ↦ rw e (omega (arith, length-remove_some k m (rw e at h)))
  ]

  pub lookup-has_key :
      (k : Text) (m : List (Text × V)) (v : V) → lookup k m ≡ some v → has_key k m ≡ true
  unfolding has_key lookup
  lookup-has_key k [] v h = cc
  lookup-has_key k ((j, w) ∷ m) v h = ground (arith, lookup-has_key k m v)

  pub has_key-remove :
      (k j : Text) (m : List (Text × V)) → has_key j m ≡ false → has_key j (remove k m) ≡ false
  unfolding has_key remove
  has_key-remove k j [] h = refl
  has_key-remove k j ((i, v) ∷ m) h = ground (arith, has_key-remove k j m)

  pub has_key-remove_self : (k : Text) (m : List (Text × V)) → has_key k (remove k m) ≡ false
  unfolding has_key remove
  has_key-remove_self k [] = refl
  has_key-remove_self k ((i, v) ∷ m) = ground (arith, has_key-remove_self k m)

  pub has_key-retain :
      (p : V → Bool) (j : Text) (m : List (Text × V))
      → has_key j m ≡ false
      → has_key j (retain p m) ≡ false
  unfolding has_key retain
  has_key-retain p j [] h = refl
  has_key-retain p j ((i, v) ∷ m) h = ground (arith, has_key-retain p j m)

  pub lookup-none : (k : Text) (m : List (Text × V)) → has_key k m ≡ false → lookup k m ≡ none
  unfolding has_key lookup
  lookup-none k [] h = refl
  lookup-none k ((i, v) ∷ m) h = ground (arith, lookup-none k m)
