-- ===== src/Detail/Tests.antt =====
-- Runs of the page of one element, and its theorems at concrete inputs.
use cassem.Base.{ℕ, ◌≡◌, refl, ap, ◌⊎◌, true, false, Option, none, some, [], ◌∷◌, String, All, trim}
use cassem.Base.Pick.{first}
use cassem.Base.Decimal.{decimal, value_of, value_of-decimal}
use cassem.Domain.{Number, nat, absent, Element, ElementMetadata, is_number, is_truthy}
use cassem.Effects.{resolved, label}
use cassem.Content.Parsers.{Parsers}
use cassem.Content.Validation.{validate_content}
use cassem.Detail.State.{Location, DiffPair, State, page_job, publish_job, submit_job, initial}
use cassem.Detail.Handlers.{
  handle_open_new_version, handle_publish_directly, put_settled, get_settled, handle_load_diff,
  handle_submit_new_version,
}
use cassem.Detail.Loading.{Loaded, load_effect, page_settled}
use cassem.Detail.World.{
  World, Reach, here, next, happens, page_arrives, put_ends, get_ends, start, after, react,
  opens_new_version, types_raw, opens_confirm, confirms, enabled, move,
}
use cassem.Detail.Shown.{Current, one_if, changes, Shows}
use cassem.Detail.Latest.{Reach-Shows_page, Reach-IsSound_page}
use cassem.Detail.Published.{IsPublishable, get_settled-IsPublishable}
use cassem.Detail.Moved.{move-submits}
use cassem.Detail.Diff.{page_settled-handle_load_diff}

page : Unit {0}
unfolding load_effect page_settled handle_open_new_version handle_publish_directly put_settled
    get_settled handle_load_diff handle_submit_new_version enabled move trim validate_content
    is_truthy decimal
page = tt

abbrev parsers : Parsers
parsers = record {
  json_error = λ text. none;
  toml_error = λ text. none;
  throws = λ key raw. false;
  number_of = λ text. none;
}

abbrev decode : String → Option String
decode text = some text

abbrev at : Location
at = record { app_id = "shop"; env = "prod"; key = "limits" }

abbrev metadata : Option Number → ElementMetadata
metadata draft = record {
  key = "limits";
  latest_version = some (nat 2);
  using_version = some (nat 2);
  unpublished_version = draft;
  content_type = absent;
}

abbrev version : ℕ → Element
version n = record {
  metadata = metadata none;
  raw = some "a";
  version = some (nat n);
  published = true;
}

abbrev loaded : Loaded
loaded = record { element = version 2; versions = version 2 ∷ version 1 ∷ []; operations = [] }

abbrev Answers : Location → Loaded → Type 0
Answers place found = found ≡ loaded

abbrev mounted : State
mounted = record (initial at) { mounted = true }

abbrev shown : World
shown = after [] (page_settled decode 1 false (resolved loaded) (start parsers decode at).view)

Reach-shown : Reach parsers decode Answers at shown
unfolding page
Reach-shown = next here (page_arrives 1 at false loaded first refl)

Reach-Shows_page_example : (shown.view.loading ≡ false) × Shows decode Answers shown.view
unfolding page
Reach-Shows_page_example = Reach-Shows_page parsers decode Answers at shown Reach-shown refl

abbrev opened : World
opened = after shown.jobs (react parsers decode opens_new_version shown.view)

abbrev written : World
written = after opened.jobs (react parsers decode (types_raw "b") opened.view)

abbrev asked : World
asked = after written.jobs (react parsers decode opens_confirm written.view)

abbrev putting : World
putting = after asked.jobs (react parsers decode confirms asked.view)

abbrev getting : World
getting = after shown.jobs (put_settled at (some (nat 2)) (resolved tt) putting.view)

abbrev updated : Element
updated = record {
  metadata = metadata (some (nat 3));
  raw = some "b";
  version = some (nat 3);
  published = false;
}

abbrev publishing : World
publishing = after shown.jobs (get_settled at (some (nat 2)) (resolved updated) getting.view)

Reach-publishing : Reach parsers decode Answers at publishing
unfolding page
Reach-publishing =
    next
      (next
        (next
          (next
            (next (next Reach-shown (happens opens_new_version refl))
              (happens (types_raw "b") refl))
            (happens opens_confirm refl))
          (happens confirms refl))
        (put_ends at "b" (some (nat 2)) (resolved tt) first))
      (get_ends at (some (nat 2)) (resolved updated) first)

publishing_job : publishing.jobs ≡ publish_job at (nat 3) ∷ shown.jobs
unfolding page
publishing_job = refl

Reach-IsSound_page_example :
    All (Current publishing.view) publishing.jobs
    × (changes publishing.jobs ≡ one_if publishing.view.saving)
Reach-IsSound_page_example =
    Reach-IsSound_page parsers decode Answers at publishing Reach-publishing

get_settled-IsPublishable_example :
    let t = get_settled at (some (nat 2)) (resolved updated) getting.view in
    ((version : Number) × IsPublishable (some (nat 2)) updated.metadata version
      × (t.jobs ≡ publish_job at version ∷ [])
      × (t.state ≡ getting.view))
    ⊎ (((version : Number) → ¬ IsPublishable (some (nat 2)) updated.metadata version)
        × (t.jobs ≡ [])
        × (t.state ≡ record getting.view {
          saving = false;
          error = label "elements.error.publishDirectly";
        }))
unfolding page
get_settled-IsPublishable_example =
    get_settled-IsPublishable at (some (nat 2)) updated getting.view refl

abbrev elsewhere : Location
elsewhere = record { app_id = "shop"; env = "prod"; key = "prices" }

Reach-written : Reach parsers decode Answers at written
unfolding page
Reach-written =
    next (next Reach-shown (happens opens_new_version refl)) (happens (types_raw "b") refl)

move-submits_example :
    (reached : World) × Reach parsers decode Answers at reached
    × (reached.view.element ≡ written.view.element)
    × ((id : ℕ) × (reached.jobs
          ≡ submit_job elsewhere written.view.edit_raw
            ∷ page_job id elsewhere false
            ∷ written.jobs))
unfolding page
move-submits_example =
    move-submits parsers decode Answers at elsewhere written Reach-written refl refl refl refl

abbrev number_of : String → Option ℕ
number_of text = some (value_of text)

page_settled-handle_load_diff_example :
    let t =
      handle_load_diff number_of (page_settled decode 0 false (resolved loaded) mounted).state in
    (pair : DiffPair) × (t.diff_pair ≡ some pair)
    × (t.diff_loaded ≡ true)
    × (is_number pair.base.version 2 ≡ true)
    × (is_number pair.compare.version 1 ≡ true)
page_settled-handle_load_diff_example =
    page_settled-handle_load_diff decode number_of (λ n. ap some (value_of-decimal n)) loaded
      mounted 1 0 (nat 1) [] refl refl refl
