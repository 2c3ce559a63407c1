-- ===== src/Vosk/Download/Files.antt =====
-- What the transfer of a file leaves, and which files are missing (internal/vosk/download.go).
use mathlib.Core.List.{Memᴰ}
use mathlib.Core.List.Memᴰ
use go_live_transcription.Prelude.{
  ℕ, String, ◌==◌, eq_iff, ◌≡◌, ◌≢◌, refl, ◌∙◌, ap, sym, Bool, true, false, not, List, [], ◌∷◌,
  if◌then◌else◌, nat_eq_iff, arith, Bool-cases, ◌⊎◌, inl, inr,
}
use go_live_transcription.GoMap.{lookup, insert, delete}
use go_live_transcription.GoMap.Laws.{lookup-insert, lookup-delete}
use go_live_transcription.Vosk.Download.{
  HfEntry, Disk, temp, Transfer, no_directory, no_request, no_answer, no_temp_file, copy_fails,
  rename_fails, bad_status, arrives, download_file, has_size, is_stored, missing,
}

-- The entries of a repository name each path with one size, and no path is a temporary file's.
abbrev pub Consistent : List HfEntry → Type 0
Consistent files =
    (f g : HfEntry)
    → Memᴰ f files
    → Memᴰ g files
    → (f.path ≡ g.path → f.size ≡ g.size) × (temp f.path ≢ g.path)

-- What arrives of a listed file has its size.
abbrev pub Sound : (String → Transfer) → List HfEntry → Type 0
Sound transfers files =
    (f : HfEntry) (n : ℕ) → Memᴰ f files → transfers f.path ≡ arrives n → n ≡ f.size

-- All files are there with their sizes.
abbrev pub Stored : List HfEntry → Disk → Type 0
Stored files disk = (f : HfEntry) → Memᴰ f files → is_stored disk f ≡ true

is_stored-lookup :
    (d e : Disk) (f : HfEntry) → lookup f.path e ≡ lookup f.path d → is_stored e f ≡ is_stored d f
unfolding is_stored
is_stored-lookup d e f h = ap (λ o. has_size o f.size) h

deleted-stored :
    (path : String) (d : Disk) (f : HfEntry)
    → path ≢ f.path
    → is_stored (delete path d) f ≡ is_stored d f
deleted-stored path d f h =
    is_stored-lookup d (delete path d) f
      (ground (arith, h, eq_iff path f.path, lookup-delete path f.path d))

inserted-stored :
    (path : String) (d : Disk) (f : HfEntry) (n : ℕ)
    → path ≡ f.path
    → n ≡ f.size
    → is_stored (insert path n d) f ≡ true
unfolding is_stored has_size
inserted-stored path d f n h size =
    rw (lookup-insert path f.path n d, (eq_iff path f.path).1 h)
      (ground (arith, size, nat_eq_iff n f.size))

-- A transfer leaves a file that is there, and its own file there if it succeeds.
pub file_kept :
    (t : Transfer) (f g : HfEntry) (d : Disk)
    → ((n : ℕ) → t ≡ arrives n → n ≡ f.size)
    → (f.path ≡ g.path → f.size ≡ g.size) × (temp f.path ≢ g.path)
    → is_stored d g ≡ true
    → is_stored (download_file t f.path d).0 g ≡ true
unfolding download_file
file_kept no_directory f g d sound apart h = h
file_kept no_request f g d sound apart h = h
file_kept no_answer f g d sound apart h = h
file_kept no_temp_file f g d sound apart h = h
file_kept (bad_status n) f g d sound apart h = h
file_kept copy_fails f g d sound apart h = deleted-stored (temp f.path) d g apart.1 ∙ h
file_kept rename_fails f g d sound apart h = deleted-stored (temp f.path) d g apart.1 ∙ h
file_kept (arrives n) f g d sound apart h = elim (Bool-cases (f.path == g.path)) [
  | inl same ↦
      let e = (eq_iff f.path g.path).0 same in
      inserted-stored f.path (delete (temp f.path) d) g n e (sound n refl ∙ apart.0 e)
  | inr other ↦
      is_stored-lookup (delete (temp f.path) d) (insert f.path n (delete (temp f.path) d)) g
        (ground (arith, other, lookup-insert f.path g.path n (delete (temp f.path) d)))
      ∙ deleted-stored (temp f.path) d g apart.1
      ∙ h
]

pub file_stored :
    (t : Transfer) (f : HfEntry) (d : Disk)
    → ((n : ℕ) → t ≡ arrives n → n ≡ f.size)
    → (download_file t f.path d).1 ≡ true
    → is_stored (download_file t f.path d).0 f ≡ true
unfolding download_file
file_stored (arrives n) f d sound h =
    inserted-stored f.path (delete (temp f.path) d) f n refl (sound n refl)
file_stored no_directory f d sound h = absurd (ground (arith, h))
file_stored no_request f d sound h = absurd (ground (arith, h))
file_stored no_answer f d sound h = absurd (ground (arith, h))
file_stored no_temp_file f d sound h = absurd (ground (arith, h))
file_stored (bad_status n) f d sound h = absurd (ground (arith, h))
file_stored copy_fails f d sound h = absurd (ground (arith, h))
file_stored rename_fails f d sound h = absurd (ground (arith, h))

first_or_rest :
    (b : Bool) (f g : HfEntry) (files : List HfEntry)
    → Memᴰ f (if b then g ∷ files else files)
    → (f ≡ g) ⊎ Memᴰ f files
first_or_rest true f g files m = Memᴰ.cases_cons m
first_or_rest false f g files m = inr m

pub missing-listed :
    (d : Disk) (files : List HfEntry) (f : HfEntry) → Memᴰ f (missing d files) → Memᴰ f files
missing-listed d [] f m = m
missing-listed d (g ∷ files) f m =
    elim (first_or_rest (not (is_stored d g)) f g (missing d files) m) [
      | inl e ↦ Memᴰ.head e
      | inr n ↦ Memᴰ.tail (missing-listed d files f n)
    ]

pub in_missing :
    (d : Disk) (files : List HfEntry) (f : HfEntry)
    → is_stored d f ≡ false
    → Memᴰ f files
    → Memᴰ f (missing d files)
in_missing d [] f away m = absurd (Memᴰ.not-nil m)
in_missing d (g ∷ files) f away (Memᴰ.head e) = rw (ap (is_stored d) (sym e) ∙ away) (Memᴰ.head e)
in_missing d (g ∷ files) f away (Memᴰ.tail m) = elim (Bool-cases (is_stored d g)) [
  | inl there ↦ rw there (in_missing d files f away m)
  | inr gone ↦ rw gone (Memᴰ.tail (in_missing d files f away m))
]

pub missing_of_Stored : (d : Disk) (files : List HfEntry) → Stored files d → missing d files ≡ []
missing_of_Stored d [] h = refl
missing_of_Stored d (g ∷ files) h =
    rw (h g (Memᴰ.head refl)) (missing_of_Stored d files (λ f m. h f (Memᴰ.tail m)))
