-- ===== src/Settings/Tests.antt =====
-- Runs of the settings, and their theorem at a concrete input.
use cassem.Base.{
  ◌≡◌, refl, ◌≢◌, Option, none, some, [], ◌∷◌, String, if◌then◌else◌, length, ◌==◌ as nat_eq,
}
use cassem.Session.Storage.{Store}
use cassem.Settings.{Object, string_value, Update, default_settings, read_settings, update_settings}
use text.Mathlib.Text.{◌==◌}
use cassem.Settings.Merged.{updated, read_settings-update_settings}

settings : Unit {0}
unfolding read_settings update_settings
settings = tt

-- One object and its JSON.
abbrev teal_json : String
teal_json = "{\"uiTheme\":\"teal\",\"other\":\"kept\"}"

abbrev teal : Object
teal = ("uiTheme", string_value "teal") ∷ ("other", string_value "kept") ∷ []

abbrev one_dark_json : String
one_dark_json = "{\"uiTheme\":\"teal\",\"other\":\"kept\",\"codeTheme\":\"one-dark\"}"

abbrev one_dark : Object
one_dark =
    ("uiTheme", string_value "teal")
    ∷ ("other", string_value "kept")
    ∷ ("codeTheme", string_value "one-dark")
    ∷ []

abbrev parse : String → Option Object
parse raw =
    if raw == teal_json then some teal else if raw == one_dark_json then some one_dark else none

abbrev print : Object → String
print object = if nat_eq (length object) 3 then one_dark_json else teal_json

abbrev store : Store
store key = some teal_json

abbrev dark : Update
dark = record { code_theme = some "one-dark"; ui_theme = none; editor_line_wrapping = none }

keeps_other_fields : update_settings parse print dark store "cassem.settings" ≡ some one_dark_json
unfolding settings
keeps_other_fields = refl

rejects_unknown :
    (updated
      (record { code_theme = some "neon"; ui_theme = none; editor_line_wrapping = none })
      default_settings).code_theme
    ≡ "github-light-plus"
unfolding settings
rejects_unknown = refl

given_text : one_dark_json ≢ ""
given_text e = cc

read_settings-update_settings_example :
    read_settings parse print (update_settings parse print dark store)
    ≡ updated dark (read_settings parse print store)
unfolding settings
read_settings-update_settings_example =
    read_settings-update_settings parse print dark store refl given_text
