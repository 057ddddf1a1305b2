-- ===== src/Elements/Tests.antt =====
-- Runs of the page of elements, and its theorems at concrete inputs.
use cassem.Base.{
  ◌+◌, ◌≡◌, refl, ◌≢◌, true, false, none, some, [], ◌∷◌, ◌++◌, String, All, if◌then◌else◌, trim,
}
use cassem.Base.Pick.{first}
use cassem.Domain.{nat, absent, Element}
use cassem.Effects.{Reply, resolved}
use cassem.Content.Parsers.{Parsers}
use cassem.Content.Validation.{validate_content}
use cassem.Elements.State.{
  Location, ElementsResponse, Request, elements_job, create_job, closure_of,
}
use cassem.Elements.Handlers.{
  load_effect, handle_load_more, elements_settled, list_elements, handle_create,
}
use cassem.Elements.World.{
  World, Reach, here, next, happens, answered, elements_arrive, start, after, react, loads_more,
  opens_create, types_key, types_raw, creates, enabled,
}
use cassem.Elements.Listed.{Listed, Shows, one_if, changes}
use cassem.Elements.Answers.{Reach-Lists}
use cassem.Elements.Rest.{ComesToRest, Reach-ComesToRest}
use cassem.Elements.Created.{IsSound, Reach-IsSound}
use cassem.Elements.Moved.{move, asks, move-loads_more}
use text.Mathlib.Text.{◌==◌ as str_eq}

page : Unit {0}
unfolding load_effect elements_settled list_elements handle_load_more handle_create enabled move
    trim validate_content
page = tt

abbrev parsers : Parsers
parsers = record {
  json_error = λ text. none;
  toml_error = λ text. none;
  throws = λ key raw. false;
  number_of = λ text. none;
}

abbrev at : Location
at = record { app_id = "shop"; env = "prod" }

abbrev element_of : String → Element
element_of key = record {
  metadata = record {
    key = key;
    latest_version = some (nat 1);
    using_version = none;
    unpublished_version = none;
    content_type = absent;
  };
  raw = none;
  version = some (nat 1);
  published = false;
}

-- The server has two pages.
abbrev contents : Request → ElementsResponse
contents asked =
    if str_eq asked.seek ""
    then record { elements = element_of "a" ∷ []; has_more = true; next_seek = "b" }
    else record { elements = element_of "b" ∷ []; has_more = false; next_seek = "" }

abbrev Answers : Request → ElementsResponse → Type 0
Answers asked found = found ≡ contents asked

abbrev first_request : Request
first_request = record { location = at; query = ""; limit = 15; seek = "" }

abbrev second_request : Request
second_request = record { location = at; query = ""; limit = 15; seek = "b" }

abbrev listed : World
listed = record {
  view = elements_settled 1 false false (resolved (contents first_request)) (start parsers at).view;
  jobs = [];
}

Reach-listed : Reach parsers Answers at listed
unfolding page
Reach-listed =
    next here
      (answered (elements_arrive 1 first_request false false (contents first_request) first refl))

abbrev more : World
more = after [] (react parsers loads_more listed.view)

abbrev shown : World
shown = record {
  view = elements_settled 2 true false (resolved (contents second_request)) more.view;
  jobs = [];
}

Reach-shown : Reach parsers Answers at shown
unfolding page
Reach-shown =
    next (next Reach-listed (happens loads_more refl))
      (answered (elements_arrive 2 second_request true false (contents second_request) first refl))

both_shown : shown.view.elements ≡ element_of "a" ∷ element_of "b" ∷ []
unfolding page
both_shown = refl

Reach-Lists_example :
    Shows Answers shown.view
    × (shown.view.has_more ≡ true
        → shown.view.next_seek ≢ ""
        → Listed Answers (closure_of shown.view) shown.view.elements true shown.view.next_seek)
unfolding page
Reach-Lists_example = Reach-Lists parsers Answers at shown Reach-shown refl

abbrev opened : World
opened = after [] (react parsers opens_create listed.view)

abbrev named : World
named = after [] (react parsers (types_key "limits") opened.view)

abbrev written : World
written = after [] (react parsers (types_raw "{}") named.view)

abbrev creating : World
creating = after [] (react parsers creates written.view)

Reach-creating : Reach parsers Answers at creating
unfolding page
Reach-creating =
    next
      (next
        (next (next Reach-listed (happens opens_create refl)) (happens (types_key "limits") refl))
        (happens (types_raw "{}") refl))
      (happens creates refl)

creating_job : creating.jobs ≡ create_job (closure_of written.view) "limits" "{}" 1 ∷ []
unfolding page
creating_job = refl

Reach-IsSound_example :
    All (IsSound parsers) creating.jobs × (changes creating.jobs ≡ one_if creating.view.submitting)
Reach-IsSound_example = Reach-IsSound parsers Answers at creating Reach-creating

Reach-ComesToRest_example : ComesToRest Answers creating
Reach-ComesToRest_example = Reach-ComesToRest parsers Answers at creating Reach-creating

abbrev elsewhere : Location
elsewhere = record { app_id = "shop"; env = "dev" }

b_next : listed.view.next_seek ≢ ""
unfolding page
b_next e = cc

move-loads_more_example :
    let moved = (move elsewhere listed.view).0 in
    let clicked = handle_load_more moved in
    ((move elsewhere listed.view).1
      ≡ elements_job moved.request_seq (asks elsewhere listed.view "") false false ∷ [])
    × (enabled loads_more moved ≡ true)
    × (clicked.1
        ≡ elements_job
            (moved.request_seq + 1)
            (asks elsewhere listed.view listed.view.next_seek)
            true
            false
          ∷ [])
    × ((reply : Reply ElementsResponse)
        → elements_settled moved.request_seq false false reply clicked.0 ≡ clicked.0)
    × ((found : ElementsResponse)
        → (elements_settled (moved.request_seq + 1) true false (resolved found) clicked.0).elements
          ≡ listed.view.elements ++ found.elements)
unfolding page
move-loads_more_example =
    move-loads_more parsers Answers at elsewhere listed Reach-listed refl refl refl b_next
