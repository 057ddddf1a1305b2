-- ===== src/Content/Ini.antt =====
-- The lines and the two patterns of `validateIni`. A pattern is scanned from left to right: each of its
-- parts stops where the next one begins.
use cassem.Base.{
  ℕ, Bool, true, false, not, ◌&&◌, ◌||◌, List, [], ◌∷◌, String, if◌then◌else◌, ◌==◌, is_blank,
  is_space,
}
use Prim.Native.Char.{Char, code}

abbrev pub is_line_end : ℕ → Bool
is_line_end c = c == 10 || c == 13

-- What `.` does not match.
abbrev pub is_terminator : ℕ → Bool
is_terminator c = is_line_end c || c == 8232 || c == 8233

abbrev pub is_separator : ℕ → Bool
is_separator c = c == b'=' || c == b':'

abbrev pub prepend : Char → List String → List String
prepend c [] = String.◌∷◌ c "" ∷ []
prepend c (line ∷ lines) = String.◌∷◌ c line ∷ lines

abbrev pub begins_newline : String → Bool
begins_newline String.[] = false
begins_newline (String.◌∷◌ c text) = code c == 10

-- `raw.split(/\r?\n/)`.
unfoldable pub split_lines : String → List String
split_lines String.[] = "" ∷ []
split_lines (String.◌∷◌ c text) =
    let rest = split_lines text in
    if code c == 10
    then "" ∷ rest
    else if code c == 13 && begins_newline text
    then rest
    else prepend c rest

-- `/^\[[^\]\r\n]+\]$/` behind the bracket, and whether it has seen a character.
unfoldable pub section_rest : Bool → String → Bool
section_rest started String.[] = false
section_rest started (String.◌∷◌ c text) =
    let rest = section_rest true text in
    if code c == b']'
    then started && is_blank text
    else if is_line_end (code c)
    then false
    else rest

unfoldable pub is_section : String → Bool
unfolding section_rest
is_section String.[] = false
is_section (String.◌∷◌ c text) = code c == b'[' && section_rest false text

-- `/^[^=:#\r\n][^=:\r\n]*\s*[=:]\s*.*$/`, from its end: `.*`, `\s*.*`, `\s*[=:]\s*.*`, and so on.
unfoldable pub value_rest : String → Bool
value_rest String.[] = true
value_rest (String.◌∷◌ c text) =
    let rest = value_rest text in if is_terminator (code c) then false else rest

unfoldable pub value_start : String → Bool
unfolding value_rest is_space
value_start String.[] = true
value_start (String.◌∷◌ c text) =
    let rest = value_start text in
    if is_space (code c) then rest else value_rest (String.◌∷◌ c text)

unfoldable pub key_gap : String → Bool
unfolding value_start is_space
key_gap String.[] = false
key_gap (String.◌∷◌ c text) =
    let rest = key_gap text in
    if is_separator (code c) then value_start text else if is_space (code c) then rest else false

unfoldable pub key_rest : String → Bool
unfolding value_start key_gap
key_rest String.[] = false
key_rest (String.◌∷◌ c text) =
    let rest = key_rest text in
    if is_separator (code c)
    then value_start text
    else if is_line_end (code c)
    then key_gap (String.◌∷◌ c text)
    else rest

-- `[^=:#\r\n]`.
abbrev pub begins_key : ℕ → Bool
begins_key c = not (is_separator c || c == b'#' || is_line_end c)

unfoldable pub is_key_value : String → Bool
unfolding key_rest
is_key_value String.[] = false
is_key_value (String.◌∷◌ c text) = begins_key (code c) && key_rest text
