-- ===== src/CopyEnv/Elements.antt =====
-- The requests of web/src/features/envs/CopyEnvDialog.tsx: listing all elements page by page, and what
-- is sent for one element.
use cassem.Base.{
  ℕ, zero, suc, ◌-◌, Bool, true, false, not, ◌&&◌, ◌||◌, Option, none, some, List, [], ◌∷◌, ◌++◌,
  String, Text, codes, map, leb, if◌then◌else◌, ◌==◌,
}
use cassem.Domain.{nat, ContentType, absent, number, name, Element, is_truthy}
use cassem.Effects.{Reply, resolved, rejected}
use mathlib.Core.Option
use text.Mathlib.Text.{◌==◌ as str_eq}

-- A page of the list of elements; a missing list is an empty one.
pub record ElementsResponse : Type 0 where
  pub elements : List Element
  pub has_more : Bool
  pub next_seek : Option String

-- The server: the page behind each seek key, or an error.
abbrev pub Server : Type 0
Server = String → Reply ElementsResponse

-- `!data.hasMore || !data.nextSeek`.
abbrev pub is_last : ElementsResponse → Bool
is_last page = not page.has_more || str_eq (Option.get_or page.next_seek "") ""

-- `requestAllElements`, whose loop has no bound: on fuel, `none` means that the fuel ran out. The
-- first rejected request ends it.
unfoldable pub request_all_elements_from :
    Server → ℕ → String → List Element → Option (Reply (List Element))
request_all_elements_from server zero seek elements = none
request_all_elements_from server (suc fuel) seek elements = elim (server seek) [
  | rejected failure ↦ some (rejected failure)
  | resolved page ↦
      let more =
        request_all_elements_from server fuel (Option.get_or page.next_seek "")
          (elements ++ page.elements) in
      if is_last page then some (resolved (elements ++ page.elements)) else more
]

unfoldable pub request_all_elements : Server → ℕ → Option (Reply (List Element))
unfolding request_all_elements_from
request_all_elements server fuel = request_all_elements_from server fuel "" []

-- `raw === ''`.
abbrev is_blank : Option String → Bool
is_blank none = false
is_blank (some raw) = str_eq raw ""

-- An element without a published version, or whose content is the empty text.
unfoldable pub is_element_empty : Element → Bool
unfolding is_truthy
is_element_empty element = not (is_truthy element.metadata.using_version) || is_blank element.raw

-- `toUpperCase` on the letters whose upper case is an ASCII letter: a to z, the dotless i and the
-- long s. (Any other letter stays different from the ASCII labels it is compared with.)
unfoldable pub upper : ℕ → ℕ
upper c =
    if leb b'a' c && leb c b'z'
    then c - 32
    else if c == 305
    then b'I'
    else if c == 383
    then b'S'
    else c

abbrev pub texts_equal : Text → Text → Bool
texts_equal [] [] = true
texts_equal (c ∷ s) (d ∷ t) = c == d && texts_equal s t
texts_equal _ _ = false

-- web/src/domain/types.ts: `contentTypes`.
abbrev content_types : List (ℕ × String)
content_types = (1, "JSON") ∷ (2, "TOML") ∷ (3, "INI") ∷ (4, "PLAINTEXT") ∷ []

abbrev label_number : Text → List (ℕ × String) → Option ℕ
label_number text [] = none
label_number text ((value, label) ∷ types) =
    if texts_equal (codes label) text then some value else label_number text types

abbrev matched : String → Option ℕ → ContentType
matched text (some value) = number (nat value)
matched text none = name text

-- The content type that is sent: a known name by its number, JSON if there is none.
unfoldable pub normalize_content_type : ContentType → ContentType
unfolding upper
normalize_content_type (number value) = number value
normalize_content_type (name text) =
    matched text (label_number (map upper (codes text)) content_types)
normalize_content_type absent = number (nat 1)
