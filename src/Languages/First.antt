-- ===== src/Languages/First.antt =====
-- A part of `LanguageMap` of internal/languages/models.go, in the order of the source.
use go_live_transcription.Prelude.{[], ◌∷◌}
use go_live_transcription.GoMap.{GoMap}
use go_live_transcription.Languages.Model.{LanguageModel, new_lang, new_lang_rtl}

unfoldable pub languages_first : GoMap LanguageModel
languages_first =
    ("aa", new_lang "Afar")
    ∷ ("abt", new_lang "Ambulas")
    ∷ ("ace", new_lang "Achinese")
    ∷ ("acf", new_lang "St Lucian Creole French")
    ∷ ("ach", new_lang "Acoli")
    ∷ ("ada", new_lang "Adangme")
    ∷ ("adh", new_lang "Adhola")
    ∷ ("ady", new_lang "Adyghe")
    ∷ ("af", new_lang "Afrikaans")
    ∷ ("agr", new_lang "Aguaruna")
    ∷ ("ahk", new_lang "Akha")
    ∷ ("ak", new_lang "Twi")
    ∷ ("akb", new_lang "Batak Angkola")
    ∷ ("alt", new_lang "S. Altai")
    ∷ ("alz", new_lang "Alur")
    ∷ ("am", new_lang "Amharic")
    ∷ ("amu", new_lang "Guerrero Amuzgo")
    ∷ ("ang", new_lang "Old English")
    ∷ ("ann", new_lang "Obolo")
    ∷ ("ape", new_lang "Bukiyip")
    ∷ ("ar", new_lang_rtl "\u{627}َ\u{644}ْ\u{639}َ\u{631}َ\u{628}ِ\u{64a}َّ\u{629}ُ")
    ∷ ("arn", new_lang "Mapudungun")
    ∷ (
      "ar_TN",
      new_lang_rtl
          "\u{627}\u{644}\u{639}\u{631}\u{628}\u{64a}\u{629} (\u{62a}\u{648}\u{646}\u{633})",
    )
    ∷ ("as", new_lang "Assamese")
    ∷ ("av", new_lang "Avar")
    ∷ ("awa", new_lang "Awadhi")
    ∷ ("ay", new_lang "Aymara")
    ∷ ("az", new_lang "Azerbaijani")
    ∷ ("ba", new_lang "Bashkir")
    ∷ ("ban", new_lang "Balinese")
    ∷ ("bas", new_lang "Basa (Cameroon)")
    ∷ ("bbc", new_lang "Batak Toba")
    ∷ ("bci", new_lang "Baoulé")
    ∷ ("be", new_lang "Belarusian")
    ∷ ("ber", new_lang "Tamazight (Tfng)")
    ∷ ("bew", new_lang "Betawi")
    ∷ ("bg", new_lang "Bulgarian")
    ∷ ("bgp", new_lang "E. Baluchi")
    ∷ ("bgz", new_lang "Banggai")
    ∷ ("bho", new_lang "Bhojpuri")
    ∷ ("bi", new_lang "Bislama")
    ∷ ("bik", new_lang "Central Bikol")
    ∷ ("bim", new_lang "Bimoba")
    ∷ ("bjj", new_lang "Kanauji")
    ∷ ("bm", new_lang "Bambara")
    ∷ ("bn", new_lang "Bengali")
    ∷ ("bo", new_lang "Tibetan")
    ∷ ("bqc", new_lang "Boko (Benin)")
    ∷ ("br", new_lang "Breton")
    ∷ ("bru", new_lang "E. Bru")
    ∷ ("brx", new_lang "Bodo (India)")
    ∷ ("bs", new_lang "Bosnian")
    ∷ ("bts", new_lang "Batak Simalungun")
    ∷ ("btx", new_lang "Batak Karo")
    ∷ ("bua", new_lang "Buryat")
    ∷ ("bum", new_lang "Bulu")
    ∷ ("bus", new_lang "Bokobaru")
    ∷ ("bzj", new_lang "Belize Kriol English")
    ∷ ("ca", new_lang "Català")
    ∷ ("cab", new_lang "Garifuna")
    ∷ ("cac", new_lang "Chuj")
    ∷ ("cak", new_lang "Kaqchikel")
    ∷ ("cbk", new_lang "Chavacano")
    ∷ ("cce", new_lang "Chopi")
    ∷ ("ce", new_lang "Chechen")
    ∷ ("ceb", new_lang "Cebuano")
    ∷ ("cfm", new_lang "Falam Chin")
    ∷ ("ch", new_lang "Chamorro")
    ∷ ("chk", new_lang "Chuukese")
    ∷ ("chm", new_lang "Meadow Mari")
    ∷ ("chr", new_lang "Cherokee")
    ∷ ("cjk", new_lang "Chokwe")
    ∷ ("ckb", new_lang "Kurdish (Sorani)")
    ∷ ("cnh", new_lang "Hakha Chin")
    ∷ ("cni", new_lang "Asháninka")
    ∷ ("co", new_lang "Corsican")
    ∷ ("crh", new_lang "Crimean Tatar")
    ∷ ("crs", new_lang "Seselwa Creole French")
    ∷ ("cs", new_lang "Čeština")
    ∷ ("ctu", new_lang "Chol")
    ∷ ("cuk", new_lang "San Blas Kuna")
    ∷ ("cv", new_lang "Chuvash")
    ∷ ("cy", new_lang "Welsh")
    ∷ ("da", new_lang "Danish")
    ∷ ("de", new_lang "Deutsch")
    ∷ ("din", new_lang "Dinka")
    ∷ ("dje", new_lang "Zarma")
    ∷ ("djk", new_lang "E. Maroon Creole")
    ∷ ("dov", new_lang "Dombe")
    ∷ ("dtp", new_lang "Kadazan Dusun")
    ∷ ("dv", new_lang "Dhivehi")
    ∷ ("dwr", new_lang "Dawro")
    ∷ ("dyu", new_lang "Dyula")
    ∷ ("dz", new_lang "Dzongkha")
    ∷ ("ee", new_lang "Ewe")
    ∷ ("el", new_lang "Greek")
    ∷ ("emp", new_lang "N. Emberá")
    ∷ ("en", new_lang "English")
    ∷ ("enq", new_lang "Enga")
    ∷ ("eo", new_lang "Esperanto")
    ∷ ("es", new_lang "Español")
    ∷ ("et", new_lang "Estonian")
    ∷ ("eu", new_lang "Basque")
    ∷ ("fa", new_lang_rtl "\u{641}\u{627}\u{631}\u{633}\u{6cc}")
    ∷ ("ff", new_lang "Fulfulde")
    ∷ ("ffm", new_lang "Maasina Fulfulde")
    ∷ ("fi", new_lang "Finnish")
    ∷ ("fil", new_lang "Filipino")
    ∷ ("fip", new_lang "Fipa")
    ∷ ("fj", new_lang "Fijian")
    ∷ ("fo", new_lang "Faroese")
    ∷ ("fon", new_lang "Fon")
    ∷ ("fr", new_lang "Français")
    ∷ ("frp", new_lang "Arpitan")
    ∷ ("fy", new_lang "W. Frisian")
    ∷ ("ga", new_lang "Irish")
    ∷ ("gag", new_lang "Gagauz")
    ∷ ("gbm", new_lang "Garhwali")
    ∷ ("gd", new_lang "Scottish Gaelic")
    ∷ ("gil", new_lang "Gilbertese")
    ∷ ("gl", new_lang "Galician")
    ∷ ("gn", new_lang "Guarani")
    ∷ ("gof", new_lang "Gofa")
    ∷ ("gom", new_lang "Goan Konkani")
    ∷ ("gor", new_lang "Gorontalo")
    ∷ ("grc", new_lang "Ancient Greek")
    ∷ ("gsw", new_lang "Swiss German")
    ∷ ("gu", new_lang "Gujarati")
    ∷ ("gub", new_lang "Guajajára")
    ∷ ("guc", new_lang "Wayuu")
    ∷ []
