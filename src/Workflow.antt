-- ===== src/Workflow.antt =====
-- web/src/features/publish/workflowOptions.ts: the version, agent and instance options of the
-- publish and rollback wizards.
pub mod Order
pub mod Unique
mod Tests
use cassem.Base.{
  ℕ, Bool, Option, none, some, List, [], ◌∷◌, ◌++◌, String, not, leb, if◌then◌else◌, keep, any, map,
}
use cassem.Base.Decimal.{decimal}
use cassem.Domain.{Element, positive}
use mathlib.Core.Option
use text.Mathlib.Text.{◌==◌}

pub record VersionOption : Type 0 where
  pub value : String
  pub version : ℕ
  pub published : Bool
  pub element : Element

abbrev option_of : Element → Option ℕ → Option VersionOption
option_of element none = none
option_of element (some version) = some (record {
  value = decimal version;
  version = version;
  published = element.published;
  element = element;
})

unfoldable pub to_version_option : Element → Option VersionOption
unfolding positive decimal
to_version_option element = option_of element (positive element.version)

-- The `flatMap`: elements without a positive version give no option.
unfoldable pub version_options_of : List Element → List VersionOption
unfolding to_version_option
version_options_of [] = []
version_options_of (element ∷ elements) = elim (to_version_option element) [
  | none ↦ version_options_of elements
  | some option ↦ option ∷ version_options_of elements
]

-- `sort((left, right) => right.version - left.version)`, which is stable: an option goes in front
-- of those that are not newer.
unfoldable pub insert_option : VersionOption → List VersionOption → List VersionOption
insert_option option [] = option ∷ []
insert_option option (other ∷ others) =
    if leb other.version option.version
    then option ∷ other ∷ others
    else other ∷ insert_option option others

unfoldable pub sort_options : List VersionOption → List VersionOption
unfolding insert_option
sort_options [] = []
sort_options (option ∷ options) = insert_option option (sort_options options)

unfoldable pub to_version_options : List Element → List VersionOption
unfolding version_options_of sort_options
to_version_options elements = sort_options (version_options_of elements)

-- The first element that says which version is in use.
unfoldable pub get_using_version : List Element → Option ℕ
unfolding positive
get_using_version [] = none
get_using_version (element ∷ elements) = elim (positive element.metadata.using_version) [
  | none ↦ get_using_version elements
  | some version ↦ some version
]

abbrev pub is_member : String → List String → Bool
is_member value = any (λ other. other == value)

-- A `Set` keeps the order of first insertion.
unfoldable pub add_to_set : List String → String → List String
add_to_set values value = if is_member value values then values else values ++ value ∷ []

unfoldable pub insert_all : List String → List String → List String
unfolding add_to_set
insert_all values [] = values
insert_all values (value ∷ more) = insert_all (add_to_set values value) more

unfoldable pub unique_strings : List String → List String
unfolding insert_all
unique_strings values = insert_all [] (keep (λ value. not (value == "")) values)

-- `agent.agentId || ''` of each agent, and so for the instances.
unfoldable pub id_options : List (Option String) → List String
unfolding unique_strings
id_options ids = unique_strings (map (λ id. Option.get_or id "") ids)
