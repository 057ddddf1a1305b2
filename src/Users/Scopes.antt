-- ===== src/Users/Scopes.antt =====
-- The scope of a binding in web/src/features/users/UsersPage.tsx: the menus of apps and environments
-- that a list of domains gives, and the domain that a choice stands for.
use Prim.Native.String.{◌++◌ as join}
use Prim.Native.Char.{Char, code}
use cassem.Base.{
  ◌≡◌, ◌⊎◌, refl, ap, ◌∙◌, sym, Bool, true, false, Option, none, some, List, [], ◌∷◌, String, any,
  ◌==◌, if◌then◌else◌, arith, Bool-cases, Option-cases, inl, inr, eq_iff,
}
use text.Mathlib.Text.{◌==◌ as str_eq}
use text.Mathlib.TextLemmas.{nil-append, cons-append, append_assoc}
use text.Mathlib.TextEquality.{Char-path}

pub data ScopeMode : Type 0 where
  cluster app_all app_env : ScopeMode

unfoldable pub build_domain : ScopeMode → String → String → String
build_domain cluster app env = "cluster"
build_domain app_all app env = join app "/*"
build_domain app_env app env = join app (join "/" env)

abbrev pub with_char : Char → Option String → Option String
with_char c none = none
with_char c (some s) = some (String.◌∷◌ c s)

-- `item.slice(0, -2)` if `item.endsWith('/*')`.
unfoldable pub entire_app : String → Option String
entire_app String.[] = none
entire_app (String.◌∷◌ c s) =
    let rest = entire_app s in if str_eq (String.◌∷◌ c s) "/*" then some "" else with_char c rest

-- `item.slice(prefix.length)` if `item.startsWith(prefix)`.
unfoldable pub after_prefix : String → String → Option String
after_prefix String.[] s = some s
after_prefix (String.◌∷◌ c p) String.[] = none
after_prefix (String.◌∷◌ c p) (String.◌∷◌ d s) =
    let rest = after_prefix p s in if code c == code d then rest else none

abbrev pub with_item : Option String → List String → List String
with_item none items = items
with_item (some item) items = item ∷ items

unfoldable pub app_options : List String → List String
unfolding entire_app
app_options [] = []
app_options (item ∷ items) =
    with_item (if str_eq item "cluster" then none else entire_app item) (app_options items)

abbrev pub env_option : String → String → Option String
env_option app item = elim (entire_app item) [
  | none ↦ after_prefix (join app "/") item
  | some _ ↦ none
]

unfoldable pub env_options : String → List String → List String
unfolding entire_app after_prefix
env_options app [] = []
env_options app (item ∷ items) =
    if str_eq app "" then [] else with_item (env_option app item) (env_options app items)

abbrev pub is_listed : String → List String → Bool
is_listed item = any (λ other. str_eq other item)

-- The text in front of the suffix, and the text behind the prefix.
entire_app_lem : (item app : String) → entire_app item ≡ some app → item ≡ join app "/*"
unfolding entire_app
entire_app_lem String.[] app h = cc
entire_app_lem (String.◌∷◌ c s) app h = elim (Bool-cases (str_eq (String.◌∷◌ c s) "/*")) [
  | inl whole ↦
      let empty : "" ≡ app = ground arith in
      (eq_iff (String.◌∷◌ c s) "/*").0 whole ∙ sym (nil-append "/*") ∙ ap (λ a. join a "/*") empty
  | inr longer ↦ elim (Option-cases (entire_app s)) [
    | inl without ↦ ground arith
    | inr (rest, found) ↦
        let same : String.◌∷◌ c rest ≡ app = ground arith in
        ap (λ s'. String.◌∷◌ c s') (entire_app_lem s rest found)
        ∙ sym (cons-append c rest "/*")
        ∙ ap (λ a. join a "/*") same
  ]
]

after_prefix_lem : (p s r : String) → after_prefix p s ≡ some r → s ≡ join p r
unfolding after_prefix
after_prefix_lem String.[] s r h = let same : s ≡ r = ground arith in same ∙ sym (nil-append r)
after_prefix_lem (String.◌∷◌ c p) String.[] r h = cc
after_prefix_lem (String.◌∷◌ c p) (String.◌∷◌ d s) r h = elim (Bool-cases (code c == code d)) [
  | inl same ↦
      let found : after_prefix p s ≡ some r = ground arith in
      let q : c ≡ d = Char-path c d (ground arith) in
      ap (λ x. String.◌∷◌ x s) (sym q)
      ∙ ap (λ s'. String.◌∷◌ c s') (after_prefix_lem p s r found)
      ∙ sym (cons-append c p r)
  | inr other ↦ ground arith
]

with_item-listed :
    (choice : String) (option : Option String) (others : List String)
    → is_listed choice (with_item option others) ≡ true
    → (option ≡ some choice) ⊎ (is_listed choice others ≡ true)
with_item-listed choice none others h = inr h
with_item-listed choice (some item) others h = ground (arith, eq_iff item choice)

app_options-listed :
    (app : String) (domains : List String)
    → is_listed app (app_options domains) ≡ true
    → is_listed (join app "/*") domains ≡ true
unfolding app_options
app_options-listed app [] h = cc
app_options-listed app (item ∷ items) h =
    elim (with_item-listed app (if str_eq item "cluster" then none else entire_app item)
      (app_options items) h) [
        | inl here ↦
            let found : entire_app item ≡ some app = ground arith in
            let q = entire_app_lem item app found in ground (arith, eq_iff item (join app "/*"))
        | inr later ↦ let found = app_options-listed app items later in ground arith
      ]

env_options-listed :
    (app env : String) (domains : List String)
    → is_listed env (env_options app domains) ≡ true
    → is_listed (join app (join "/" env)) domains ≡ true
unfolding env_options
env_options-listed app env [] h = cc
env_options-listed app env (item ∷ items) h =
    let chosen : str_eq app "" ≡ false = ground arith in
    let h' : is_listed env (with_item (env_option app item) (env_options app items)) ≡ true =
      ground arith in
    elim (with_item-listed env (env_option app item) (env_options app items) h') [
      | inl here ↦
          let found : after_prefix (join app "/") item ≡ some env = ground arith in
          let q = after_prefix_lem (join app "/") item env found ∙ append_assoc app "/" env in
          ground (arith, eq_iff item (join app (join "/" env)))
      | inr later ↦ let found = env_options-listed app env items later in ground arith
    ]

-- What the menus offer for a scope.
abbrev pub IsOffered : List String → ScopeMode → String → String → Type 0
IsOffered domains cluster app env = Unit
IsOffered domains app_all app env = is_listed app (app_options domains) ≡ true
IsOffered domains app_env app env = is_listed env (env_options app domains) ≡ true

-- The domain of a choice that the menus offer is one that the server lists, or the cluster.
pub build_domain-listed :
    (domains : List String) (mode : ScopeMode) (app env : String)
    → IsOffered domains mode app env
    → (build_domain mode app env ≡ "cluster")
      ⊎ (is_listed (build_domain mode app env) domains ≡ true)
unfolding build_domain
build_domain-listed domains cluster app env h = inl refl
build_domain-listed domains app_all app env h = inr (app_options-listed app domains h)
build_domain-listed domains app_env app env h = inr (env_options-listed app env domains h)
