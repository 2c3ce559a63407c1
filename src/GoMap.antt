-- ===== src/GoMap.antt =====
-- A Go map from strings, and a Go set `map[string]struct{}`. The list's order stands for the
-- order in which a `range` visits the entries.
pub mod Laws
use go_live_transcription.Prelude.{
  String, ◌==◌, Bool, true, false, ◌||◌, Option, none, some, List, [], ◌∷◌, if◌then◌else◌, is_some,
}

abbrev pub GoMap {ℓ} : Type ℓ → Type ℓ
GoMap V = List (String × V)

abbrev pub GoSet : Type 0
GoSet = GoMap (Unit {0})

module _ {ℓ} {V : Type ℓ} where
  -- `v, ok := m[k]`
  unfoldable pub lookup : String → GoMap V → Option V
  lookup key [] = none
  lookup key ((first, val) ∷ rest) = if first == key then some val else lookup key rest

  -- `m[k] = v`
  unfoldable pub insert : String → V → GoMap V → GoMap V
  insert key val [] = (key, val) ∷ []
  insert key val ((first, old) ∷ rest) =
      if first == key then (key, val) ∷ rest else (first, old) ∷ insert key val rest

  -- `delete(m, k)`
  unfoldable pub delete : String → GoMap V → GoMap V
  delete k [] = []
  delete k ((j, v) ∷ m) = let rest = delete k m in if j == k then rest else (j, v) ∷ rest

  unfoldable pub has : String → GoMap V → Bool
  unfolding lookup
  has k m = is_some (lookup k m)

  -- `len(m) == 0`
  abbrev pub is_empty : GoMap V → Bool
  is_empty [] = true
  is_empty (e ∷ m) = false

  abbrev pub keys : GoMap V → List String
  keys [] = []
  keys ((k, v) ∷ m) = k ∷ keys m

  abbrev pub values : GoMap V → List V
  values [] = []
  values ((k, v) ∷ m) = v ∷ values m

-- Whether a text is among some.
abbrev pub has_key : String → List String → Bool
has_key k [] = false
has_key k (j ∷ js) = j == k || has_key k js

-- `s[k] = struct{}{}`
abbrev pub add : String → GoSet → GoSet
add k s = insert k tt s
