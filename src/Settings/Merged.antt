-- ===== src/Settings/Merged.antt =====
-- Settings that are written are read back, over those of before.
use cassem.Base.{
  ◌≡◌, refl, ap, ◌∙◌, ◌≢◌, Bool, true, false, Option, none, some, [], ◌∷◌, String, if◌then◌else◌,
  arith, eq_iff, Bool-cases, inl, inr, eq_refl,
}
use cassem.Session.Storage.{Store}
use cassem.Settings.{
  Value, string_value, boolean_value, Object, field, with_field, with_text, with_flag, merged,
  settings_of, AppSettings, Update, default_settings, is_code_theme, is_ui_theme, valid_or,
  checked_text, checked_flag, read_settings, update_settings, stored_text, or_none, or_braces,
  or_default,
}
use text.Mathlib.Text.{◌==◌}

field-with_field :
    (name : String) (value : Value) (other : String) (object : Object)
    → field other (with_field name value object)
      ≡ (if name == other then some value else field other object)
unfolding with_field
field-with_field name value other [] = refl
field-with_field name value other ((key, old) ∷ object) = elim (Bool-cases (key == name)) [
  | inl same ↦ rw same (ground (arith, eq_iff key name))
  | inr differs ↦ rw differs (
      ground (
        arith,
        eq_iff key name,
        eq_iff key other,
        eq_iff name other,
        field-with_field name value other object,
      ))
]

-- A setting that is given takes the place of the old one, or the default does if it is none of the
-- options.
abbrev pub changed : (String → Bool) → String → Option String → String → String
changed valid fallback none old = old
changed valid fallback (some value) old = valid_or valid fallback value

abbrev pub changed_flag : Option Bool → Bool → Bool
changed_flag none old = old
changed_flag (some value) old = value

abbrev pub updated : Update → AppSettings → AppSettings
updated next old = record {
  code_theme = changed is_code_theme default_settings.code_theme next.code_theme old.code_theme;
  ui_theme = changed is_ui_theme default_settings.ui_theme next.ui_theme old.ui_theme;
  editor_line_wrapping = changed_flag next.editor_line_wrapping old.editor_line_wrapping;
}

-- A field that is not given, or that has another name, is as before.
checked-with_text :
    (valid : String → Bool) (fallback name : String) (option : Option String) (object : Object)
    → checked_text valid fallback (field name (with_text valid fallback name option object))
      ≡ changed valid fallback option (checked_text valid fallback (field name object))
checked-with_text valid fallback name none object = refl
checked-with_text valid fallback name (some value) object =
    rw
      (
        field-with_field name (string_value (valid_or valid fallback value)) name object,
        eq_refl name,
      )
      (elim (Bool-cases (valid value)) [
        | inl good ↦ rw (good, good) refl
        | inr bad ↦ rw bad (elim (Bool-cases (valid fallback)) [
          | inl good ↦ rw good refl
          | inr worse ↦ rw worse refl
        ])
      ])

field-with_text :
    (valid : String → Bool) (fallback name other : String) (option : Option String)
    (object : Object)
    → (name == other) ≡ false
    → field other (with_text valid fallback name option object) ≡ field other object
field-with_text valid fallback name other none object h = refl
field-with_text valid fallback name other (some value) object h =
    field-with_field name (string_value (valid_or valid fallback value)) other object ∙ rw h refl

checked-with_flag :
    (name : String) (fallback : Bool) (option : Option Bool) (object : Object)
    → checked_flag fallback (field name (with_flag name option object))
      ≡ changed_flag option (checked_flag fallback (field name object))
checked-with_flag name fallback none object = refl
checked-with_flag name fallback (some value) object =
    rw (field-with_field name (boolean_value value) name object, eq_refl name) refl

field-with_flag :
    (name other : String) (option : Option Bool) (object : Object)
    → (name == other) ≡ false
    → field other (with_flag name option object) ≡ field other object
field-with_flag name other none object h = refl
field-with_flag name other (some value) object h =
    field-with_field name (boolean_value value) other object ∙ rw h refl

settings_of-merged :
    (next : Update) (object : Object)
    → settings_of (merged next object) ≡ updated next (settings_of object)
unfolding merged
settings_of-merged next object =
    let code_checked : Option Value → String =
      checked_text is_code_theme default_settings.code_theme in
    let ui_checked : Option Value → String = checked_text is_ui_theme default_settings.ui_theme in
    let code =
      with_text is_code_theme default_settings.code_theme "codeTheme" next.code_theme object in
    let ui = with_text is_ui_theme default_settings.ui_theme "uiTheme" next.ui_theme code in
    let e : code_checked
          (field "codeTheme" (with_flag "editorLineWrapping" next.editor_line_wrapping ui))
        ≡ changed is_code_theme default_settings.code_theme next.code_theme
            (code_checked (field "codeTheme" object)) =
      ap code_checked (
        field-with_flag "editorLineWrapping" "codeTheme" next.editor_line_wrapping ui refl
        ∙ field-with_text is_ui_theme default_settings.ui_theme "uiTheme" "codeTheme" next.ui_theme
            code refl)
      ∙ checked-with_text is_code_theme default_settings.code_theme "codeTheme" next.code_theme
          object in
    let u : ui_checked
          (field "uiTheme" (with_flag "editorLineWrapping" next.editor_line_wrapping ui))
        ≡ changed is_ui_theme default_settings.ui_theme next.ui_theme
            (ui_checked (field "uiTheme" object)) =
      ap ui_checked
        (field-with_flag "editorLineWrapping" "uiTheme" next.editor_line_wrapping ui refl)
      ∙ checked-with_text is_ui_theme default_settings.ui_theme "uiTheme" next.ui_theme code
      ∙ ap (λ found. changed is_ui_theme default_settings.ui_theme next.ui_theme (ui_checked found))
          (field-with_text is_code_theme default_settings.code_theme "codeTheme" "uiTheme"
            next.code_theme object refl) in
    let w : checked_flag true
          (field "editorLineWrapping" (with_flag "editorLineWrapping" next.editor_line_wrapping ui))
        ≡ changed_flag next.editor_line_wrapping
            (checked_flag true (field "editorLineWrapping" object)) =
      checked-with_flag "editorLineWrapping" true next.editor_line_wrapping ui
      ∙ ap (λ found. changed_flag next.editor_line_wrapping (checked_flag true found))
          (field-with_text is_ui_theme default_settings.ui_theme "uiTheme" "editorLineWrapping"
              next.ui_theme code refl
            ∙ field-with_text is_code_theme default_settings.code_theme "codeTheme"
                "editorLineWrapping" next.code_theme object refl) in
    λ i. record { code_theme = e i; ui_theme = u i; editor_line_wrapping = w i }

or_braces-given : (raw : String) → raw ≢ "" → or_braces raw ≡ raw
or_braces-given raw given = elim (Bool-cases (raw == "")) [
  | inl empty ↦ absurd (given ((eq_iff raw "").0 empty))
  | inr some_text ↦ rw some_text refl
]

settings_of-or_none : (parsed : Option Object) → settings_of (or_none parsed) ≡ or_default parsed
unfolding read_settings
settings_of-or_none none = refl
settings_of-or_none (some object) = refl

-- The object that an update stores.
abbrev pub stored_object : (String → Option Object) → Update → Store → Object
stored_object parse next store = merged next (or_none (parse (stored_text store)))

-- The settings that are read after an update are those read before with the given ones in place, each
-- replaced by its default if it is none of the options; the text that is printed for the stored object
-- parses to that object, and is not empty.
pub read_settings-update_settings :
    (parse : String → Option Object) (print : Object → String) (next : Update) (store : Store)
    → parse (print (stored_object parse next store)) ≡ some (stored_object parse next store)
    → print (stored_object parse next store) ≢ ""
    → read_settings parse print (update_settings parse print next store)
      ≡ updated next (read_settings parse print store)
unfolding read_settings update_settings
read_settings-update_settings parse print next store parses given =
    let object = stored_object parse next store in
    ap (λ raw. or_default (parse raw)) (or_braces-given (print object) given)
    ∙ ap or_default parses
    ∙ settings_of-merged next (or_none (parse (stored_text store)))
    ∙ ap (updated next) (settings_of-or_none (parse (stored_text store)))
