-- ===== src/I18n/Locale.antt =====
-- web/src/i18n/locale.ts and web/src/i18n/store.ts: which language is shown, and how a text of the
-- catalogues is looked up and filled in.
use cassem.Base.{
  ℕ, ◌+◌, Bool, true, false, not, ◌&&◌, ◌||◌, Option, none, some, List, [], ◌∷◌, String,
  if◌then◌else◌, leb, ◌==◌, is_blank,
}
use Prim.Native.String.{◌++◌ as join}
use Prim.Native.Char.{code}
use text.Mathlib.Text.{◌==◌ as str_eq}

pub data Locale : Type 0 where
  en zh_cn : Locale

-- `isLocale`, with the locale.
unfoldable pub is_locale : String → Option Locale
is_locale text =
    if str_eq text "en" then some en else if str_eq text "zh-CN" then some zh_cn else none

abbrev pub locale_of : Option String → Option Locale
locale_of none = none
locale_of (some text) = is_locale text

abbrev pub tag : Locale → String
tag en = "en"
tag zh_cn = "zh-CN"

abbrev lower : ℕ → ℕ
lower c = if leb 65 c && leb c 90 then c + 32 else c

-- `/^zh(?:-|$)/i` and `/^en(?:-|$)/i`, by the two letters.
unfoldable pub has_language : String → String → Bool
has_language String.[] String.[] = true
has_language String.[] (String.◌∷◌ c text) = code c == b'-'
has_language (String.◌∷◌ d pattern) String.[] = false
has_language (String.◌∷◌ d pattern) (String.◌∷◌ c text) =
    let rest = has_language pattern text in lower (code c) == code d && rest

-- `browserLocale` over the languages of the browser, the preferred one first.
unfoldable pub browser_locale : List String → Locale
unfolding has_language
browser_locale [] = en
browser_locale (language ∷ languages) =
    let rest = browser_locale languages in
    if has_language "zh" language then zh_cn else if has_language "en" language then en else rest

-- `readLocale`: the stored locale, if it can be read and is one.
unfoldable pub read_locale : Option String → List String → Locale
unfolding is_locale browser_locale
read_locale saved languages = elim (locale_of saved) [
  | none ↦ browser_locale languages
  | some locale ↦ locale
]

-- A parameter's value is its text.
abbrev pub Params : Type 0
Params = List (String × String)

abbrev pub param_of : Params → String → Option String
param_of [] name = none
param_of ((other, value) ∷ params) name =
    let rest = param_of params name in if str_eq other name then some value else rest

-- `\w`.
abbrev pub is_word : ℕ → Bool
is_word c =
    leb b'0' c && leb c b'9' || leb b'A' c && leb c b'Z' || leb b'a' c && leb c b'z' || c == b'_'

abbrev pub braced : String → String
braced name = join "{" (join name "}")

-- A placeholder whose name is no parameter stays as it is.
abbrev pub filled : Params → String → String
filled params name = elim (param_of params name) [ none ↦ braced name | some value ↦ value ]

-- The scan of `replace`: behind an opening brace it holds the word that follows.
unfoldable pub expand : Params → Option String → String → String
expand params none String.[] = ""
expand params none (String.◌∷◌ c text) =
    let opened = expand params (some "") text in
    let rest = expand params none text in if code c == b'{' then opened else String.◌∷◌ c rest
expand params (some name) String.[] = join "{" name
expand params (some name) (String.◌∷◌ c text) =
    let longer = expand params (some (join name (String.◌∷◌ c ""))) text in
    let opened = expand params (some "") text in
    let rest = expand params none text in
    if is_word (code c)
    then longer
    else if code c == b'}' && not (is_blank name)
    then join (filled params name) rest
    else join "{" (join name (if code c == b'{' then opened else String.◌∷◌ c rest))

abbrev pub or_text : Option String → String → String
or_text none fallback = fallback
or_text (some text) fallback = text

module _ (en_texts zh_cn_texts : String → Option String) where
  -- `message ?? en[key] ?? key`.
  unfoldable pub message_of : Locale → String → String
  message_of en key = or_text (en_texts key) key
  message_of zh_cn key = or_text (zh_cn_texts key) (or_text (en_texts key) key)

  unfoldable pub translate : Locale → String → Params → String
  unfolding message_of expand
  translate locale key params = expand params none (message_of locale key)
