-- ===== src/Settings.antt =====
-- web/src/lib/settings.ts: the settings of the console in the browser's local storage. `JSON.parse` and
-- `JSON.stringify` are parameters.
pub mod Merged
mod Tests
use cassem.Base.{
  Bool, true, false, ◌&&◌, Option, none, some, List, [], ◌∷◌, String, if◌then◌else◌, any,
}
use cassem.Session.Storage.{Store, get_item, set_item, or_empty}
use text.Mathlib.Text.{◌==◌}

-- A value of the stored object: what the settings look at.
pub data Value : Type 0 where
  string_value : String → Value
  boolean_value : Bool → Value
  other_value : String → Value

abbrev pub Object : Type 0
Object = List (String × Value)

abbrev pub field : String → Object → Option Value
field name [] = none
field name ((key, value) ∷ object) =
    let rest = field name object in if key == name then some value else rest

-- `merged[name] = value`.
unfoldable pub with_field : String → Value → Object → Object
with_field name value [] = (name, value) ∷ []
with_field name value ((key, old) ∷ object) =
    let rest = with_field name value object in
    if key == name then (name, value) ∷ object else (key, old) ∷ rest

pub record AppSettings : Type 0 where
  pub code_theme : String
  pub ui_theme : String
  pub editor_line_wrapping : Bool

abbrev pub default_settings : AppSettings
default_settings = record {
  code_theme = "github-light-plus";
  ui_theme = "cassem-blue";
  editor_line_wrapping = true;
}

abbrev pub code_themes : List String
code_themes = "github-light-plus" ∷ "github-light" ∷ "one-dark" ∷ []

abbrev pub ui_themes : List String
ui_themes = "cassem-blue" ∷ "teal" ∷ "purple" ∷ "orange" ∷ []

unfoldable pub is_code_theme : String → Bool
is_code_theme value = any (λ theme. theme == value) code_themes

unfoldable pub is_ui_theme : String → Bool
is_ui_theme value = any (λ theme. theme == value) ui_themes

abbrev pub checked_text : (String → Bool) → String → Option Value → String
checked_text valid fallback (some (string_value value)) = if valid value then value else fallback
checked_text valid fallback _ = fallback

abbrev pub checked_flag : Bool → Option Value → Bool
checked_flag fallback (some (boolean_value value)) = value
checked_flag fallback _ = fallback

abbrev pub settings_of : Object → AppSettings
settings_of parsed = record {
  code_theme = checked_text is_code_theme default_settings.code_theme (field "codeTheme" parsed);
  ui_theme = checked_text is_ui_theme default_settings.ui_theme (field "uiTheme" parsed);
  editor_line_wrapping =
      checked_flag default_settings.editor_line_wrapping (field "editorLineWrapping" parsed);
}

-- `Partial<AppSettings>`.
pub record Update : Type 0 where
  pub code_theme : Option String
  pub ui_theme : Option String
  pub editor_line_wrapping : Option Bool

abbrev pub valid_or : (String → Bool) → String → String → String
valid_or valid fallback value = if valid value then value else fallback

abbrev pub with_text : (String → Bool) → String → String → Option String → Object → Object
with_text valid fallback name none object = object
with_text valid fallback name (some value) object =
    with_field name (string_value (valid_or valid fallback value)) object

abbrev pub with_flag : String → Option Bool → Object → Object
with_flag name none object = object
with_flag name (some value) object = with_field name (boolean_value value) object

unfoldable pub merged : Update → Object → Object
unfolding with_field is_code_theme is_ui_theme
merged next current = with_flag "editorLineWrapping" next.editor_line_wrapping (
    with_text is_ui_theme default_settings.ui_theme "uiTheme" next.ui_theme
      (with_text is_code_theme default_settings.code_theme "codeTheme" next.code_theme current))

abbrev pub settings_key : String
settings_key = "cassem.settings"

abbrev pub or_braces : String → String
or_braces raw = if raw == "" then "{}" else raw

-- What is stored, for `JSON.parse`.
abbrev pub stored_text : Store → String
stored_text store = or_braces (or_empty (get_item settings_key store))

abbrev pub or_none : Option Object → Object
or_none none = []
or_none (some object) = object

abbrev pub or_default : Option Object → AppSettings
or_default none = default_settings
or_default (some parsed) = settings_of parsed

-- `parse` gives nothing for a text that is no JSON, and for `null`, whose fields cannot be read and
-- which spreads to no fields. (A value of another kind reads like an object without fields.)
module _ (parse : String → Option Object) (print : Object → String) where
  unfoldable pub read_settings : Store → AppSettings
  unfolding is_code_theme is_ui_theme
  read_settings store = or_default (parse (stored_text store))

  unfoldable pub update_settings : Update → Store → Store
  unfolding merged
  update_settings next store =
      set_item settings_key (print (merged next (or_none (parse (stored_text store))))) store
