-- ===== src/Vosk/References.antt =====
-- The reference counts of the models (internal/vosk/model.go) against the recognizers of all rooms
-- (internal/vosk/recognizer.go).
use go_live_transcription.Prelude.{
  ℕ, ◌+◌, ◌-◌, String, ◌==◌, eq_iff, ◌≡◌, refl, Bool, true, Option, none, some, if◌then◌else◌, ltb,
  arith, Result, ok, err,
}
use go_live_transcription.GoMap.{lookup}
use go_live_transcription.GoMap.Laws.{lookup-insert, lookup-delete}
use go_live_transcription.Vosk.Models.{
  ModelManager, ModelEntry, ModelDirectory, ModelError, get_model, release_model, drop_reference,
  load_model, find_model, share_model, not_there, not_loadable, loads,
}
use go_live_transcription.Languages.Model.{models_list}

abbrev pub count_of : Option ModelEntry → ℕ
count_of none = 0
count_of (some e) = e.ref_count

-- The references to the model of a language.
abbrev pub refs : String → ModelManager → ℕ
refs l mm = count_of (lookup l mm.models)

abbrev in_use : Option ModelEntry → Bool
in_use none = true
in_use (some e) = ltb 0 e.ref_count

-- A model that is loaded has a reference.
abbrev pub Sound : String → ModelManager → Type 0
Sound l mm = in_use (lookup l mm.models) ≡ true

drop-refs :
    (o : Option ModelEntry) (k l : String) (mm : ModelManager)
    → lookup k mm.models ≡ o
    → Sound l mm
    → (refs l (drop_reference o k mm) ≡ (if k == l then refs l mm - 1 else refs l mm))
      × Sound l (drop_reference o k mm)
unfolding drop_reference
drop-refs none k l mm e s = ground (arith, e, s, eq_iff k l)
drop-refs (some x) k l mm e s = ground (
  arith,
  e,
  s,
  eq_iff k l,
  lookup-delete k l mm.models,
  lookup-insert k l (record x { ref_count = x.ref_count - 1 }) mm.models,
)

pub release_model-refs :
    (k l : String) (mm : ModelManager)
    → Sound l mm
    → (refs l (release_model k mm) ≡ (if k == l then refs l mm - 1 else refs l mm))
      × Sound l (release_model k mm)
unfolding release_model
release_model-refs k l mm s = drop-refs (lookup k mm.models) k l mm refl s

abbrev pub gained : {A : Type 0} → Result ModelError A → ℕ
gained (ok a) = 1
gained (err e) = 0

-- A request for the model of `k` counts for it if it succeeds, and for nothing else.
abbrev pub Counts : String → String → ModelManager → ModelManager × Result ModelError ℕ → Type 0
Counts k l mm r = (refs l r.0 ≡ refs l mm + (if k == l then gained r.1 else 0)) × Sound l r.0

load-Counts :
    (d : ModelDirectory) (k l : String) (mm : ModelManager)
    → lookup k mm.models ≡ none
    → Sound l mm
    → Counts k l mm (load_model d k mm)
unfolding load_model
load-Counts not_there k l mm e s = ground (arith, s)
load-Counts not_loadable k l mm e s = ground (arith, s)
load-Counts (loads x) k l mm e s =
    let entry : ModelEntry = record { model = x; ref_count = 1 } in
    ground (arith, s, e, eq_iff k l, lookup-insert k l entry mm.models)

find-Counts :
    (o : Option String) (at : String → ModelDirectory) (k l : String) (mm : ModelManager)
    → lookup k mm.models ≡ none
    → Sound l mm
    → Counts k l mm (find_model o at k mm)
unfolding find_model
find-Counts none at k l mm e s = ground (arith, s)
find-Counts (some dir) at k l mm e s = load-Counts (at dir) k l mm e s

share-Counts :
    (o : Option ModelEntry) (at : String → ModelDirectory) (k l : String) (mm : ModelManager)
    → lookup k mm.models ≡ o
    → Sound l mm
    → Counts k l mm (share_model o at k mm)
unfolding share_model
share-Counts none at k l mm e s = find-Counts (lookup k models_list) at k l mm e s
share-Counts (some x) at k l mm e s =
    let entry : ModelEntry = record x { ref_count = x.ref_count + 1 } in
    ground (arith, s, e, eq_iff k l, lookup-insert k l entry mm.models)

pub get_model-Counts :
    (at : String → ModelDirectory) (k l : String) (mm : ModelManager)
    → Sound l mm
    → Counts k l mm (get_model at k mm)
unfolding get_model
get_model-Counts at k l mm s = share-Counts (lookup k mm.models) at k l mm refl s
