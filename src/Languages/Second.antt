-- ===== src/Languages/Second.antt =====
-- A part of `LanguageMap` of internal/languages/models.go, in the order of the source.
use go_live_transcription.Prelude.{[], ◌∷◌}
use go_live_transcription.GoMap.{GoMap}
use go_live_transcription.Languages.Model.{LanguageModel, new_lang, new_lang_rtl, new_lang_no_sep}

unfoldable pub languages_second : GoMap LanguageModel
languages_second =
    ("guh", new_lang "Guahibo")
    ∷ ("gui", new_lang "E. Bolivian Guaraní")
    ∷ ("gv", new_lang "Manx")
    ∷ ("gvl", new_lang "Gulay")
    ∷ ("gym", new_lang "Ngäbere")
    ∷ ("gyn", new_lang "Guyanese Creole English")
    ∷ ("ha", new_lang "Hausa")
    ∷ ("haw", new_lang "Hawaiian")
    ∷ ("he", new_lang_rtl "Hebrew")
    ∷ ("hi", new_lang "हिंदी")
    ∷ ("hif", new_lang "Fiji Hindi")
    ∷ ("hil", new_lang "Hiligaynon")
    ∷ ("hmn", new_lang "Hmong")
    ∷ ("hne", new_lang "Chhattisgarhi")
    ∷ ("ho", new_lang "Hiri Motu")
    ∷ ("hr", new_lang "Croatian")
    ∷ ("ht", new_lang "Haitian Creole")
    ∷ ("hu", new_lang "Hungarian")
    ∷ ("hui", new_lang "Huli")
    ∷ ("hus", new_lang "Huastec")
    ∷ ("hvn", new_lang "Sabu")
    ∷ ("hy", new_lang "Armenian")
    ∷ ("iba", new_lang "Iban")
    ∷ ("ibb", new_lang "Ibibio")
    ∷ ("id", new_lang "Indonesian")
    ∷ ("ify", new_lang "Keley-I Kallahan")
    ∷ ("ig", new_lang "Igbo")
    ∷ ("ilo", new_lang "Ilocano")
    ∷ ("inb", new_lang "Inga")
    ∷ ("is", new_lang "Icelandic")
    ∷ ("iso", new_lang "Isoko")
    ∷ ("it", new_lang "Italiano")
    ∷ ("iu", new_lang "Inuktitut")
    ∷ ("ium", new_lang "Iu Mien")
    ∷ ("izz", new_lang "Izii")
    ∷ ("ja", new_lang_no_sep "日本語")
    ∷ ("jac", new_lang "Popti'")
    ∷ ("jam", new_lang "Jamaican Creole English")
    ∷ ("jax", new_lang "Jambi Malay")
    ∷ ("jiv", new_lang "Shuar")
    ∷ ("jv", new_lang "Javanese")
    ∷ ("jvn", new_lang "Caribbean Javanese")
    ∷ ("ka", new_lang "Georgian")
    ∷ ("kaa", new_lang "Kara-Kalpak")
    ∷ ("kaa-Latn", new_lang "Kara-Kalpak (Latn)")
    ∷ ("kac", new_lang "Kachin")
    ∷ ("kbd", new_lang "Kabardian")
    ∷ ("kbp", new_lang "Kabiyè")
    ∷ ("kek", new_lang "Kekchí")
    ∷ ("kg", new_lang "Kongo")
    ∷ ("kha", new_lang "Khasi")
    ∷ ("kj", new_lang "Kuanyama")
    ∷ ("kjg", new_lang "Khmu")
    ∷ ("kjh", new_lang "Khakas")
    ∷ ("kk", new_lang "қазақ")
    ∷ ("kl", new_lang "Kalaallisut")
    ∷ ("km", new_lang "Khmer")
    ∷ ("kmb", new_lang "Kimbundu")
    ∷ ("kn", new_lang "Kannada")
    ∷ ("knj", new_lang "W. Kanjobal")
    ∷ ("ko", new_lang "한국인")
    ∷ ("koi", new_lang "Komi-Permyak")
    ∷ ("kos", new_lang "Kosraean")
    ∷ ("krc", new_lang "Karachay-Balkar")
    ∷ ("kri", new_lang "Krio")
    ∷ ("krj", new_lang "Kinaray-A")
    ∷ ("ks", new_lang "Kashmiri")
    ∷ ("ksd", new_lang "Kuanua")
    ∷ ("ksw", new_lang "S'gaw Karen")
    ∷ ("ktu", new_lang "Kituba (DRC)")
    ∷ ("ku", new_lang "Kurdish (Kurmanji)")
    ∷ ("kum", new_lang "Kumyk")
    ∷ ("kv", new_lang "Komi")
    ∷ ("kw", new_lang "Cornish")
    ∷ ("kwi", new_lang "Awa-Cuaiquer")
    ∷ ("ky", new_lang "Kyrghyz")
    ∷ ("la", new_lang "Latin")
    ∷ ("laj", new_lang "Lango (Uganda)")
    ∷ ("lb", new_lang "Luxembourgish")
    ∷ ("lg", new_lang "Luganda")
    ∷ ("lhu", new_lang "Lahu")
    ∷ ("ln", new_lang "Lingala")
    ∷ ("lo", new_lang "Lao")
    ∷ ("lrc", new_lang "N. Luri")
    ∷ ("lt", new_lang "Lithuanian")
    ∷ ("ltg", new_lang "Latgalian")
    ∷ ("lu", new_lang "Luba-Katanga")
    ∷ ("lus", new_lang "Mizo")
    ∷ ("luz", new_lang "S. Luri")
    ∷ ("lv", new_lang "Latvian")
    ∷ ("mad", new_lang "Madurese")
    ∷ ("mag", new_lang "Magahi")
    ∷ ("mai", new_lang "Maithili")
    ∷ ("mak", new_lang "Makasar")
    ∷ ("mam", new_lang "Mam")
    ∷ ("mas", new_lang "Masai")
    ∷ ("maz", new_lang "Central Mazahua")
    ∷ ("mbt", new_lang "Matigsalug Manobo")
    ∷ ("mdf", new_lang "Moksha")
    ∷ ("mel", new_lang "Central Melanau")
    ∷ ("meo", new_lang "Kedah Malay")
    ∷ ("meu", new_lang "Motu")
    ∷ ("mey", new_lang "Hassaniyya")
    ∷ ("mfe", new_lang "Morisien")
    ∷ ("mg", new_lang "Malagasy")
    ∷ ("mgh", new_lang "Makhuwa-Meetto")
    ∷ ("mh", new_lang "Marshallese")
    ∷ ("mi", new_lang "Maori")
    ∷ ("min", new_lang "Minangkabau")
    ∷ ("miq", new_lang "Mískito")
    ∷ ("mk", new_lang "Macedonian")
    ∷ ("mkn", new_lang "Kupang Malay")
    ∷ ("ml", new_lang "Malayalam")
    ∷ ("mn", new_lang "Mongolian")
    ∷ ("mni", new_lang "Meiteilon (Manipuri)")
    ∷ ("mnw", new_lang "Mon")
    ∷ ("mps", new_lang "Dadibi")
    ∷ ("mqy", new_lang "Manggarai")
    ∷ ("mr", new_lang "Marathi")
    ∷ ("mrj", new_lang "Hill Mari")
    ∷ ("mrw", new_lang "Maranao")
    ∷ ("ms", new_lang "Malay")
    ∷ ("msb", new_lang "Masbatenyo")
    ∷ ("msi", new_lang "Sabah Malay")
    ∷ ("msm", new_lang "Agusan Manobo")
    ∷ ("mt", new_lang "Maltese")
    ∷ ("mtr", new_lang "Mewari")
    ∷ ("my", new_lang "Myanmar (Burmese)")
    ∷ ("myv", new_lang "Erzya")
    ∷ ("ne", new_lang "Nepali")
    ∷ []
