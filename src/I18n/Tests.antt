-- ===== src/I18n/Tests.antt =====
-- The texts of the console at concrete inputs.
use cassem.Base.{◌≡◌, refl, Option, none, some, List, [], ◌∷◌, String}
use cassem.I18n.Locale.{en, zh_cn, browser_locale, read_locale, translate, message_of}
use cassem.I18n.Placeholders.{Piece, plain, placeholder, filled_in, translate-filled_in}

console : Unit {0}
unfolding browser_locale read_locale translate
console = tt

abbrev english : String → Option String
english key = some "v{version} {status}"

abbrev chinese : String → Option String
chinese key = none

prefers_chinese : browser_locale ("fr" ∷ "ZH-tw" ∷ "en" ∷ []) ≡ zh_cn
unfolding console
prefers_chinese = refl

stored_first : read_locale (some "en") ("zh" ∷ []) ≡ en
unfolding console
stored_first = refl

keeps_unknown : translate english chinese zh_cn "k" (("version", "3") ∷ []) ≡ "v3 {status}"
unfolding console
keeps_unknown = refl

abbrev pieces : List Piece
pieces = plain "v" ∷ placeholder "version" ∷ plain " " ∷ placeholder "status" ∷ []

translate-filled_in_example :
    translate english chinese zh_cn "k" (("version", "3") ∷ ("status", "draft") ∷ [])
    ≡ filled_in (("version", "3") ∷ ("status", "draft") ∷ []) pieces
unfolding message_of
translate-filled_in_example =
    translate-filled_in english chinese zh_cn "k" (("version", "3") ∷ ("status", "draft") ∷ [])
      pieces (refl, ((refl, refl), (refl, ((refl, refl), tt)))) refl
