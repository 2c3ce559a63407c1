-- ===== src/Vosk/Download/Complete.antt =====
-- What a download leaves (internal/vosk/download.go).
use mathlib.Core.List.{Memᴰ}
use mathlib.Core.List.Memᴰ
use go_live_transcription.Prelude.{
  ℕ, ◌+◌, String, ◌≡◌, refl, ◌∙◌, ap, subst, sym, Bool, true, false, none, List, [], ◌∷◌, length,
  ok, arith, Bool-cases, inl, inr,
}
use go_live_transcription.Prelude.Int.{ℤ}
use go_live_transcription.Vosk.Download.{
  HfEntry, Listing, list_all_files, Disk, Transfer, no_directory, no_request, no_answer,
  no_temp_file, copy_fails, rename_fails, bad_status, arrives, download_file, Download, is_stored,
  missing, download_round, download_each, download_listed, download_models,
}
use go_live_transcription.Vosk.Download.Files.{
  Consistent, Sound, Stored, file_kept, file_stored, missing-listed, in_missing, missing_of_Stored,
}

module _ (progress : ℕ → ℕ → ℤ) where
  round_keeps :
      (r : Disk × Bool) (t : Transfer) (path : String) (now : ℤ) (rest : Disk → Download)
      (g : HfEntry)
      → is_stored r.0 g ≡ true
      → (is_stored r.0 g ≡ true → is_stored (rest r.0).disk g ≡ true)
      → is_stored (download_round progress r t path now rest).disk g ≡ true
  unfolding download_round
  round_keeps (d, true) t path now rest g h k = k h
  round_keeps (d, false) t path now rest g h k = h

  round_ends :
      (r : Disk × Bool) (t : Transfer) (path : String) (now : ℤ) (rest : Disk → Download)
      → (download_round progress r t path now rest).error ≡ none
      → (r.1 ≡ true)
        × ((rest r.0).error ≡ none)
        × ((download_round progress r t path now rest).disk ≡ (rest r.0).disk)
  unfolding download_round
  round_ends (d, true) t path now rest h = (refl, h, refl)
  round_ends (d, false) t path now rest h = absurd (ground (arith, h))

  round_succeeds :
      (n : ℕ) (path : String) (d : Disk) (t u : Transfer) (now : ℤ) (rest : Disk → Download)
      → t ≡ arrives n
      → (rest (download_file t path d).0).error ≡ none
      → (download_round progress (download_file t path d) u path now rest).error ≡ none
  unfolding download_round download_file
  round_succeeds n path d (arrives m) u now rest e h = h
  round_succeeds n path d no_directory u now rest e h = absurd (ground (arith, e))
  round_succeeds n path d no_request u now rest e h = absurd (ground (arith, e))
  round_succeeds n path d no_answer u now rest e h = absurd (ground (arith, e))
  round_succeeds n path d no_temp_file u now rest e h = absurd (ground (arith, e))
  round_succeeds n path d (bad_status k) u now rest e h = absurd (ground (arith, e))
  round_succeeds n path d copy_fails u now rest e h = absurd (ground (arith, e))
  round_succeeds n path d rename_fails u now rest e h = absurd (ground (arith, e))

  module _ (transfers : String → Transfer) (files : List HfEntry) (apart : Consistent files)
      (sound : Sound transfers files) where
    each_keeps :
        (i total : ℕ) (todo : List HfEntry) (d : Disk) (g : HfEntry)
        → ((f : HfEntry) → Memᴰ f todo → Memᴰ f files)
        → Memᴰ g files
        → is_stored d g ≡ true
        → is_stored (download_each progress transfers i total todo d).disk g ≡ true
    unfolding download_each
    each_keeps i total [] d g listed m h = h
    each_keeps i total (f ∷ todo) d g listed m h =
        let here = listed f (Memᴰ.head refl) in
        let t = transfers f.path in
        let kept = file_kept t f g d (λ n e. sound f n here e) (apart f g here m) h in
        round_keeps (download_file t f.path d) t f.path (progress i total)
          (download_each progress transfers (i + 1) total todo) g kept
          (each_keeps (i + 1) total todo (download_file t f.path d).0 g
            (λ x n. listed x (Memᴰ.tail n)) m)

    each_stores :
        (i total : ℕ) (todo : List HfEntry) (d : Disk)
        → ((f : HfEntry) → Memᴰ f todo → Memᴰ f files)
        → (download_each progress transfers i total todo d).error ≡ none
        → Stored todo (download_each progress transfers i total todo d).disk
    unfolding download_each
    each_stores i total [] d listed h f m = absurd (Memᴰ.not-nil m)
    each_stores i total (g ∷ todo) d listed h f m =
        let here = listed g (Memᴰ.head refl) in
        let t = transfers g.path in
        let r = download_file t g.path d in
        let rest = download_each progress transfers (i + 1) total todo in
        let (done, error, same) = round_ends r t g.path (progress i total) rest h in
        let behind = λ (x : HfEntry) (n : Memᴰ x todo). listed x (Memᴰ.tail n) in
        let stored = file_stored t g d (λ n e. sound g n here e) done in
        let g_stays = each_keeps (i + 1) total todo r.0 g behind here stored in
        subst (λ e. is_stored e f ≡ true) (sym same)
          (elim (Memᴰ.cases_cons m) [
            | inl e ↦ ap (is_stored (rest r.0).disk) e ∙ g_stays
            | inr n ↦ each_stores (i + 1) total todo r.0 behind error f n
          ])

    each_succeeds :
        (i total : ℕ) (todo : List HfEntry) (d : Disk)
        → ((f : HfEntry) → Memᴰ f todo → (n : ℕ) × (transfers f.path ≡ arrives n))
        → (download_each progress transfers i total todo d).error ≡ none
    unfolding download_each
    each_succeeds i total [] d all = refl
    each_succeeds i total (f ∷ todo) d all =
        let (n, e) = all f (Memᴰ.head refl) in
        let t = transfers f.path in
        round_succeeds n f.path d t t (progress i total)
          (download_each progress transfers (i + 1) total todo) e
          (each_succeeds (i + 1) total todo (download_file t f.path d).0
            (λ x m. all x (Memᴰ.tail m)))

  -- A download from a repository whose listing succeeds, names each path with one size and has no
  -- file at the temporary path of another, where what arrives of a file has its listed size: every
  -- listed file that was there with its size stays there, however the download ends.
  pub download_models_keeps :
      (transfers : String → Transfer) (listing : Listing) (files : List HfEntry) (disk : Disk)
      (f : HfEntry)
      → list_all_files listing ≡ ok files
      → Consistent files
      → Sound transfers files
      → Memᴰ f files
      → is_stored disk f ≡ true
      → is_stored (download_models progress true listing transfers disk).disk f ≡ true
  unfolding download_models download_listed
  download_models_keeps transfers listing files disk f e apart sound m h =
      let todo = missing disk files in
      let listed = λ (g : HfEntry) (n : Memᴰ g todo). missing-listed disk files g n in
      rw e (each_keeps transfers files apart sound 0 (length todo) todo disk f listed m h)

  listed_stores :
      (transfers : String → Transfer) (files : List HfEntry) (disk : Disk)
      → Consistent files
      → Sound transfers files
      → (download_listed progress (ok files) transfers disk).error ≡ none
      → Stored files (download_listed progress (ok files) transfers disk).disk
  unfolding download_listed
  listed_stores transfers files disk apart sound e f m =
      let todo = missing disk files in
      let listed = λ (g : HfEntry) (n : Memᴰ g todo). missing-listed disk files g n in
      elim (Bool-cases (is_stored disk f)) [
        | inl there ↦
            each_keeps transfers files apart sound 0 (length todo) todo disk f listed m there
        | inr away ↦
            each_stores transfers files apart sound 0 (length todo) todo disk listed e f
              (in_missing disk files f away m)
      ]

  -- With all files there, a download makes no transfer and no report.
  nothing_missing :
      (again : String → Transfer) (files : List HfEntry) (disk : Disk)
      → Stored files disk
      → download_listed progress (ok files) again disk
        ≡ record { error = none; disk = disk; reports = [] }
  unfolding download_listed download_each
  nothing_missing again files disk h = rw (missing_of_Stored disk files h) refl

  -- A download from a repository whose listing succeeds, names each path with one size and has no
  -- file at the temporary path of another, where every listed file arrives with its size: it ends
  -- without an error, all listed files are there with their sizes, and a further download ends at
  -- once without a transfer or a report, whatever the transfers would give.
  pub download_models_complete :
      (transfers again : String → Transfer) (listing : Listing) (files : List HfEntry) (disk : Disk)
      → list_all_files listing ≡ ok files
      → Consistent files
      → ((f : HfEntry) → Memᴰ f files → transfers f.path ≡ arrives f.size)
      → let end = download_models progress true listing transfers disk in
        (end.error ≡ none)
        × Stored files end.disk
        × (download_models progress true listing again end.disk
            ≡ record { error = none; disk = end.disk; reports = [] })
  unfolding download_models download_listed
  download_models_complete transfers again listing files disk e apart all =
      let todo = missing disk files in
      let listed = λ (g : HfEntry) (n : Memᴰ g todo). missing-listed disk files g n in
      let sound : Sound transfers files = λ f n m a. ground (arith, a, all f m) in
      let end = download_listed progress (ok files) transfers disk in
      let done =
        each_succeeds transfers files apart sound 0 (length todo) todo disk
          (λ f m. (f.size, all f (listed f m))) in
      let stored = listed_stores transfers files disk apart sound done in
      rw e (done, stored, nothing_missing again files end.disk stored)
