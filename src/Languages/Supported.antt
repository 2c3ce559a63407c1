-- ===== src/Languages/Supported.antt =====
-- `VoskSupportedLanguageMap` and the `init` of internal/languages/models.go.
use go_live_transcription.Prelude.{
  String, eq_iff, ◌≡◌, refl, Bool, true, Option, none, some, List, [], ◌∷◌, arith, ◌&&◌,
  if◌then◌else◌, is_some, Option-cases, inl, inr,
}
use go_live_transcription.GoMap.{GoMap, lookup, insert, has, keys, has_key}
use go_live_transcription.GoMap.Laws.{lookup-insert, has_key-keys}
use go_live_transcription.Languages.Model.{LanguageModel, models_list}
use go_live_transcription.Languages.Table.{language_map}

-- One round of the loop of `init`.
abbrev pub put_known : Option LanguageModel → String → GoMap LanguageModel → GoMap LanguageModel
put_known none lang acc = acc
put_known (some lm) lang acc = insert lang lm acc

unfoldable pub init_loop : List String → GoMap LanguageModel → GoMap LanguageModel
init_loop [] acc = acc
init_loop (lang ∷ langs) acc = init_loop langs (put_known (lookup lang language_map) lang acc)

unfoldable pub vosk_supported_language_map : GoMap LanguageModel
vosk_supported_language_map = init_loop (keys models_list) []

init_loop-lookup :
    (j : String) (ls : List String) (acc : GoMap LanguageModel)
    → lookup j (init_loop ls acc)
      ≡ (if has_key j ls && has j language_map then lookup j language_map else lookup j acc)
unfolding init_loop has
init_loop-lookup j [] acc = refl
init_loop-lookup j (lang ∷ ls) acc = elim (Option-cases (lookup lang language_map)) [
  | inl e ↦ rw (e, init_loop) (ground (arith, e, init_loop-lookup j ls acc, eq_iff lang j))
  | inr (lm, e) ↦
      rw (e, init_loop)
        (ground (
          arith,
          e,
          init_loop-lookup j ls (insert lang lm acc),
          lookup-insert lang j lm acc,
          eq_iff lang j,
        ))
]

abbrev all_known : List String → Bool
all_known [] = true
all_known (lang ∷ langs) = has lang language_map && all_known langs

has-lookup : (k : String) (m : GoMap LanguageModel) → has k m ≡ is_some (lookup k m)
unfolding has
has-lookup k m = refl

lookup_nil : (k : String) → lookup {V = LanguageModel} k [] ≡ none
unfolding lookup
lookup_nil k = refl

all_known_sound :
    (j : String) (ls : List String)
    → all_known ls ≡ true
    → has_key j ls ≡ true
    → has j language_map ≡ true
all_known_sound j [] h k = cc
all_known_sound j (lang ∷ ls) h k = ground (arith, all_known_sound j ls, eq_iff lang j)

models_known : all_known (keys models_list) ≡ true
unfolding has models_list language_map
models_known = refl

-- The languages that the app offers are exactly those that have a model, each under the description
-- that the long table gives it: no model lacks a description.
pub supported-lookup :
    (lang : String)
    → (has lang vosk_supported_language_map ≡ has lang models_list)
      × (lookup lang vosk_supported_language_map
          ≡ (if has lang models_list then lookup lang language_map else none))
unfolding vosk_supported_language_map
supported-lookup lang = ground (
  arith,
  has-lookup lang (init_loop (keys models_list) []),
  has-lookup lang language_map,
  init_loop-lookup lang (keys models_list) [],
  has_key-keys lang models_list,
  all_known_sound lang (keys models_list) models_known,
  lookup_nil lang,
)
