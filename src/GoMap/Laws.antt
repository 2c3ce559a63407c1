-- ===== src/GoMap/Laws.antt =====
-- What a Go map answers after an update.
use go_live_transcription.Prelude.{
  String, ◌==◌, eq_iff, eq_refl, ◌≡◌, refl, not, ◌&&◌, ◌||◌, none, some, true, false, [], ◌∷◌,
  if◌then◌else◌, arith, length, ◌+◌,
}
use go_live_transcription.GoMap.{GoMap, lookup, insert, delete, has, has_key, keys, is_empty}

module _ {ℓ} {V : Type ℓ} where
  pub lookup-insert :
      (key other : String) (val : V) (m : GoMap V)
      → lookup other (insert key val m) ≡ (if key == other then some val else lookup other m)
  unfolding lookup insert
  lookup-insert key other val [] = refl
  lookup-insert key other val ((first, old) ∷ rest) = ground (
    lookup-insert key other val rest,
    arith,
    eq_iff first other,
    eq_iff first key,
    eq_iff key other,
  )

  pub lookup-delete :
      (k j : String) (m : GoMap V) → lookup j (delete k m) ≡ (if k == j then none else lookup j m)
  unfolding lookup delete
  lookup-delete k j [] = ground arith
  lookup-delete k j ((i, w) ∷ m) =
      ground (arith, eq_iff k j, eq_iff i k, eq_iff i j, lookup-delete k j m)

  pub has-insert :
      (k j : String) (v : V) (m : GoMap V) → has j (insert k v m) ≡ ((k == j) || has j m)
  unfolding has
  has-insert k j v m = ground (arith, lookup-insert k j v m)

  pub has-delete : (k j : String) (m : GoMap V) → has j (delete k m) ≡ (not (k == j) && has j m)
  unfolding has
  has-delete k j m = ground (arith, lookup-delete k j m)

  pub has_key-keys : (k : String) (m : GoMap V) → has_key k (keys m) ≡ has k m
  unfolding has
  has_key-keys k [] = refl
  has_key-keys k ((j, v) ∷ m) = ground (arith, has_key-keys k m)

  pub has_of_is_empty : (k : String) (m : GoMap V) → is_empty m ≡ true → has k m ≡ false
  unfolding has
  has_of_is_empty k [] h = refl
  has_of_is_empty k (e ∷ m) h = cc

  pub has-cons : (k j : String) (v : V) (m : GoMap V) → has k ((j, v) ∷ m) ≡ (j == k || has k m)
  unfolding has
  has-cons k j v m = ground arith

  pub lookup-cons :
      (k j : String) (v : V) (m : GoMap V)
      → lookup k ((j, v) ∷ m) ≡ (if j == k then some v else lookup k m)
  unfolding lookup
  lookup-cons k j v m = refl

  pub delete-insert : (k : String) (v : V) (m : GoMap V) → delete k (insert k v m) ≡ delete k m
  unfolding delete insert
  delete-insert k v [] = ground (arith, eq_refl k)
  delete-insert k v ((j, w) ∷ m) = ground (arith, eq_refl k, delete-insert k v m)

  pub is_empty-delete :
      (k : String) (m : GoMap V) → is_empty m ≡ true → is_empty (delete k m) ≡ true
  unfolding delete
  is_empty-delete k [] h = refl
  is_empty-delete k (e ∷ m) h = cc

-- Every key stands in the map once: `insert` and `delete` keep this.
abbrev pub Distinct {ℓ} : {V : Type ℓ} → GoMap V → Type 0
Distinct [] = Unit {0}
Distinct ((k, v) ∷ m) = (has k m ≡ false) × Distinct m

module _ {ℓ} {V : Type ℓ} where
  pub insert-Distinct : (k : String) (v : V) (m : GoMap V) → Distinct m → Distinct (insert k v m)
  unfolding insert
  insert-Distinct k v [] d = (has_of_is_empty k [] refl, tt)
  insert-Distinct k v ((j, w) ∷ m) d =
      ground (arith, d, insert-Distinct k v m d.1, has-insert k j v m, eq_iff j k, eq_iff k j)

  pub delete-Distinct : (k : String) (m : GoMap V) → Distinct m → Distinct (delete k m)
  unfolding delete
  delete-Distinct k [] d = tt
  delete-Distinct k ((j, w) ∷ m) d = ground (arith, d, delete-Distinct k m d.1, has-delete k j m)

  pub length-insert :
      (k : String) (v : V) (m : GoMap V) → has k m ≡ false → length (insert k v m) ≡ length m + 1
  unfolding insert
  length-insert k v [] h = refl
  length-insert k v ((j, w) ∷ m) h = ground (arith, h, has-cons k j w m, length-insert k v m)

  length-delete_absent :
      (k : String) (m : GoMap V) → has k m ≡ false → length (delete k m) ≡ length m
  unfolding delete
  length-delete_absent k [] h = refl
  length-delete_absent k ((j, w) ∷ m) h =
      ground (arith, h, has-cons k j w m, length-delete_absent k m)

  pub length-delete :
      (k : String) (m : GoMap V) → Distinct m → has k m ≡ true → length (delete k m) + 1 ≡ length m
  unfolding delete
  length-delete k [] d h = absurd (ground (arith, h, has_of_is_empty {V = V} k [] refl))
  length-delete k ((j, w) ∷ m) d h =
      ground
        (arith, h, d, eq_iff j k, has-cons k j w m, length-delete_absent k m, length-delete k m d.1)
