-- ===== src/Tests/Download.antt =====
-- The download of the models: a run, and the theorems at an input.
use mathlib.Core.List.{Memᴰ}
use mathlib.Core.List.Memᴰ
use go_live_transcription.Prelude.{
  ℕ, String, ◌==◌, eq_iff, ◌≡◌, ◌≢◌, refl, sym, subst, true, none, some, List, [], ◌∷◌,
  if◌then◌else◌, ◌⊎◌, inl, inr, arith,
}
use go_live_transcription.Prelude.Int.{ℤ, pos, negsuc}
use go_live_transcription.Vosk.Download.{
  HfEntry, Listing, lists, file, directory, other, no_entries, list_all_files, Disk, temp, Transfer,
  arrives, no_answer, is_stored, download_models, init_download, file_fails,
}
use go_live_transcription.Vosk.Download.Files.{Consistent, Stored}
use go_live_transcription.Vosk.Download.Complete.{download_models_complete}

abbrev graph : HfEntry
graph = record { path = "small/graph"; size = 3 }

abbrev mfcc : HfEntry
mfcc = record { path = "mfcc"; size = 5 }

abbrev repository : Listing
repository = lists (directory (lists (file graph no_entries)) (other (file mfcc no_entries)))

abbrev files : List HfEntry
files = graph ∷ mfcc ∷ []

-- Every file arrives.
abbrev all_arrive : String → Transfer
all_arrive path = arrives (if path == "mfcc" then 5 else 3)

-- Nothing answers.
abbrev none_arrives : String → Transfer
none_arrives path = no_answer

abbrev share : ℕ → ℕ → ℤ
share i total = pos i

-- The first file is there from a download that was broken off.
abbrev disk : Disk
disk = ("small/graph", 3) ∷ []

one_is_missing : init_download share true repository none_arrives disk ≡ record {
  error = some (file_fails "mfcc" no_answer);
  disk = disk;
  reports = pos 0 ∷ negsuc 0 ∷ [];
}
unfolding init_download is_stored go_live_transcription.GoMap.lookup
one_is_missing = refl

one_of_two : (f : HfEntry) → Memᴰ f files → (f ≡ graph) ⊎ (f ≡ mfcc)
one_of_two f m = elim (Memᴰ.cases_cons m) [ inl e ↦ inl e | inr n ↦ inr (Memᴰ.eq_of_singleton n) ]

-- What `Consistent` says of two files.
abbrev Apart : HfEntry → HfEntry → Type 0
Apart f g = (f.path ≡ g.path → f.size ≡ g.size) × (temp f.path ≢ g.path)

moved-Apart : (a b f g : HfEntry) → f ≡ a → g ≡ b → Apart a b → Apart f g
moved-Apart a b f g e d h = subst (λ x. Apart x g) (sym e) (subst (λ x. Apart a x) (sym d) h)

files-Consistent : Consistent files
files-Consistent f g m n = elim (one_of_two f m) [
  | inl e ↦ elim (one_of_two g n) [
    | inl d ↦
        moved-Apart graph graph f g e d
          (λ h. refl, ground (arith, eq_iff "small/graph.tmp" "small/graph"))
    | inr d ↦ moved-Apart graph mfcc f g e d (
      ground (arith, eq_iff "small/graph" "mfcc"),
      ground (arith, eq_iff "small/graph.tmp" "mfcc"),
    )
  ]
  | inr e ↦ elim (one_of_two g n) [
    | inl d ↦ moved-Apart mfcc graph f g e d (
      ground (arith, eq_iff "mfcc" "small/graph"),
      ground (arith, eq_iff "mfcc.tmp" "small/graph"),
    )
    | inr d ↦ moved-Apart mfcc mfcc f g e d (λ h. refl, ground (arith, eq_iff "mfcc.tmp" "mfcc"))
  ]
]

moved-arrives :
    (a f : HfEntry)
    → f ≡ a
    → all_arrive a.path ≡ arrives a.size
    → all_arrive f.path ≡ arrives f.size
moved-arrives a f e h = subst (λ (x : HfEntry). all_arrive x.path ≡ arrives x.size) (sym e) h

download_models_complete_example :
    let end = download_models share true repository all_arrive disk in
    (end.error ≡ none)
    × Stored files end.disk
    × (download_models share true repository none_arrives end.disk
        ≡ record { error = none; disk = end.disk; reports = [] })
unfolding list_all_files
download_models_complete_example =
    download_models_complete share all_arrive none_arrives repository files disk refl
      files-Consistent
      (λ f m. elim (one_of_two f m) [
        | inl e ↦ moved-arrives graph f e refl
        | inr e ↦ moved-arrives mfcc f e refl
      ])
