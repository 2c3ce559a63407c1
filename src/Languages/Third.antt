-- ===== src/Languages/Third.antt =====
-- A part of `LanguageMap` of internal/languages/models.go, in the order of the source.
use go_live_transcription.Prelude.{[], ◌∷◌}
use go_live_transcription.GoMap.{GoMap}
use go_live_transcription.Languages.Model.{LanguageModel, new_lang}

unfoldable pub languages_third : GoMap LanguageModel
languages_third =
    ("new", new_lang "Newari")
    ∷ ("ngu", new_lang "Guerrero Nahuatl")
    ∷ ("nhe", new_lang "E. Huasteca Nahuatl")
    ∷ ("nia", new_lang "Nias")
    ∷ ("nij", new_lang "Ngaju")
    ∷ ("niq", new_lang "Nandi")
    ∷ ("nl", new_lang "Nederlands")
    ∷ ("nnb", new_lang "Nande")
    ∷ ("no", new_lang "Norwegian")
    ∷ ("noa", new_lang "Woun Meu")
    ∷ ("noe", new_lang "Nimadi")
    ∷ ("nog", new_lang "Nogai")
    ∷ ("nr", new_lang "South Ndebele")
    ∷ ("nso", new_lang "Sepedi")
    ∷ ("nut", new_lang "Nung (Viet Nam)")
    ∷ ("nv", new_lang "Navajo")
    ∷ ("ny", new_lang "Chichewa")
    ∷ ("nyu", new_lang "Nyungwe")
    ∷ ("nzi", new_lang "Nzima")
    ∷ ("oc", new_lang "Occitan")
    ∷ ("oj", new_lang "Ojibwa")
    ∷ ("om", new_lang "Oromo")
    ∷ ("or", new_lang "Odia (Oriya)")
    ∷ ("os", new_lang "Ossetian")
    ∷ ("otq", new_lang "Querétaro Otomi")
    ∷ ("pa", new_lang "Punjabi")
    ∷ ("pag", new_lang "Pangasinan")
    ∷ ("pam", new_lang "Pampanga")
    ∷ ("pap", new_lang "Papiamento")
    ∷ ("pau", new_lang "Palauan")
    ∷ ("pck", new_lang "Paite Chin")
    ∷ ("pis", new_lang "Pijin")
    ∷ ("pl", new_lang "Polski")
    ∷ ("pon", new_lang "Pohnpeian")
    ∷ ("ppk", new_lang "Uma")
    ∷ ("prk", new_lang "Parauk")
    ∷ ("ps", new_lang "Pashto")
    ∷ ("pt", new_lang "Português")
    ∷ ("qu", new_lang "Quechua")
    ∷ ("qub", new_lang "Huallaga Huánuco Quechua")
    ∷ ("qug", new_lang "Chimborazo Highland Quichua")
    ∷ ("raj", new_lang "Rajasthani")
    ∷ ("rap", new_lang "Rapanui")
    ∷ ("rar", new_lang "Rarotongan")
    ∷ ("rm", new_lang "Romansh")
    ∷ ("rn", new_lang "Rundi")
    ∷ ("ro", new_lang "Romanian")
    ∷ ("roa", new_lang "Arpitan")
    ∷ ("rof", new_lang "Rombo")
    ∷ ("rom", new_lang "Romany")
    ∷ ("ru", new_lang "Русский")
    ∷ ("rue", new_lang "Rusyn")
    ∷ ("rw", new_lang "Kinyarwanda")
    ∷ ("sa", new_lang "Sanskrit")
    ∷ ("sah", new_lang "Sakha")
    ∷ ("sam", new_lang "Samaritan Aramaic")
    ∷ ("saq", new_lang "Samburu")
    ∷ ("sat", new_lang "Santali")
    ∷ ("sbp", new_lang "Sangu")
    ∷ ("sc", new_lang "Sardinian")
    ∷ ("sck", new_lang "Sadri")
    ∷ ("sd", new_lang "Sindhi")
    ∷ ("se", new_lang "N. Sami")
    ∷ ("see", new_lang "Seneca")
    ∷ ("seh", new_lang "Sena")
    ∷ ("ses", new_lang "Koyraboro Senni")
    ∷ ("sg", new_lang "Sango")
    ∷ ("shn", new_lang "Shan")
    ∷ ("si", new_lang "Sinhala")
    ∷ ("sid", new_lang "Sidamo")
    ∷ ("sk", new_lang "Slovak")
    ∷ ("sl", new_lang "Slovenian")
    ∷ ("sm", new_lang "Samoan")
    ∷ ("sma", new_lang "S. Sami")
    ∷ ("smj", new_lang "Lule Sami")
    ∷ ("smn", new_lang "Inari Sami")
    ∷ ("sn", new_lang "Shona")
    ∷ ("so", new_lang "Somali")
    ∷ ("sq", new_lang "Albanian")
    ∷ ("sr", new_lang "Serbian")
    ∷ ("ss", new_lang "Swati")
    ∷ ("st", new_lang "S. Sotho")
    ∷ ("su", new_lang "Sundanese")
    ∷ ("suk", new_lang "Sukuma")
    ∷ ("sv", new_lang "Swedish")
    ∷ ("sw", new_lang "Swahili")
    ∷ ("swb", new_lang "Comorian")
    ∷ ("syc", new_lang "Classical Syriac")
    ∷ ("ta", new_lang "Tamil")
    ∷ ("tab", new_lang "Tabassaran")
    ∷ ("te", new_lang "తెలుగు")
    ∷ ("tem", new_lang "Timne")
    ∷ ("teo", new_lang "Teso")
    ∷ ("tet", new_lang "Tetum")
    ∷ ("tg", new_lang "тоҷикӣ")
    ∷ ("th", new_lang "Thai")
    ∷ ("ti", new_lang "Tigrinya")
    ∷ ("tig", new_lang "Tigre")
    ∷ ("tk", new_lang "Turkmen")
    ∷ ("tkl", new_lang "Tokelau")
    ∷ ("tl", new_lang "Tagalog")
    ∷ ("tlh", new_lang "Klingon")
    ∷ ("tli", new_lang "Tlingit")
    ∷ ("tmh", new_lang "Tamashek")
    ∷ ("tn", new_lang "Tswana")
    ∷ ("to", new_lang "Tongan")
    ∷ ("tog", new_lang "Tonga (Nyasa)")
    ∷ ("tpi", new_lang "Tok Pisin")
    ∷ ("tr", new_lang "Türkçe")
    ∷ ("tru", new_lang "Turoyo")
    ∷ ("ts", new_lang "Tsonga")
    ∷ ("tt", new_lang "Tatar")
    ∷ ("tum", new_lang "Tumbuka")
    ∷ ("tvl", new_lang "Tuvalu")
    ∷ ("tw", new_lang "Twi")
    ∷ ("ty", new_lang "Tahitian")
    ∷ ("tyv", new_lang "Tuvinian")
    ∷ ("tzm", new_lang "Central Atlas Tamazight")
    ∷ ("udm", new_lang "Udmurt")
    ∷ ("ug", new_lang "Uyghur")
    ∷ ("uk", new_lang "українська")
    ∷ ("umb", new_lang "Umbundu")
    ∷ ("und", new_lang "Undetermined")
    ∷ ("ur", new_lang "Urdu")
    ∷ ("uz", new_lang "o‘zbek")
    ∷ ("vai", new_lang "Vai")
    ∷ ("ve", new_lang "Venda")
    ∷ ("vi", new_lang "Tiếng Việt")
    ∷ ("vls", new_lang "West Flemish")
    ∷ ("vo", new_lang "Volapük")
    ∷ []
