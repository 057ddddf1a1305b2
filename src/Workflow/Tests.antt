-- ===== src/Workflow/Tests.antt =====
-- The options of the wizards at concrete inputs.
use cassem.Base.{
  ◌≡◌, refl, true, false, Option, none, some, List, [], ◌∷◌, String, map, if◌then◌else◌,
}
use cassem.Domain.{Number, nat, Element, absent}
use cassem.Workflow.{
  to_version_options, version_options_of, unique_strings, is_member, get_using_version,
}
use cassem.Workflow.Order.{IsDescending, to_version_options-sorted}
use cassem.Workflow.Unique.{IsDistinct, unique_strings_lem}
use mathlib.Core.List.{Perm}
use text.Mathlib.Text.{◌==◌}

abbrev element_of : Option Number → Element
element_of version = record {
  metadata = record {
    key = "db.json";
    latest_version = some (nat 12);
    using_version = none;
    unpublished_version = none;
    content_type = absent;
  };
  raw = none;
  version = version;
  published = true;
}

abbrev elements : List Element
elements =
    element_of (some (nat 2))
    ∷ element_of none
    ∷ element_of (some (nat 12))
    ∷ element_of (some (nat 0))
    ∷ []

values : map (λ option. option.value) (to_version_options elements) ≡ "12" ∷ "2" ∷ []
unfolding to_version_options
values = refl

none_in_use : get_using_version elements ≡ none
unfolding get_using_version
none_in_use = refl

uniques : unique_strings ("b" ∷ "" ∷ "a" ∷ "b" ∷ []) ≡ "b" ∷ "a" ∷ []
unfolding unique_strings
uniques = refl

to_version_options-sorted_example :
    IsDescending (to_version_options elements)
    × Perm (to_version_options elements) (version_options_of elements)
to_version_options-sorted_example = to_version_options-sorted elements

unique_strings_lem_example :
    IsDistinct (unique_strings ("b" ∷ "" ∷ "b" ∷ []))
    × ((value : String)
        → is_member value (unique_strings ("b" ∷ "" ∷ "b" ∷ []))
          ≡ (if value == "" then false else is_member value ("b" ∷ "" ∷ "b" ∷ [])))
unique_strings_lem_example = unique_strings_lem ("b" ∷ "" ∷ "b" ∷ [])
