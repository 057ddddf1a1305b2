-- ===== src/Apps/Tests.antt =====
-- Runs of the list of apps, and its theorems at concrete inputs.
use cassem.Base.{
  ◌+◌, ◌≡◌, refl, ◌≢◌, ◌⊎◌, inl, inr, true, false, none, [], ◌∷◌, String, arith, any, trim,
}
use cassem.Base.Pick.{first}
use cassem.Effects.{resolved}
use cassem.Apps.{
  initial, Params, params_of, AppsResponse, AppMetadata, load_effect, apps_settled,
  handle_next_page, handle_previous_page, handle_create, create_settled,
}
use cassem.Apps.Paging.{handle_previous_page-handle_next_page, handle_next_page-twice}
use cassem.Apps.World.{
  World, rendered, Reach, here, next, happens, arrives, create_ends, goes_forth, opens_create,
  types_id, types_description, creates, enabled, react,
}
use cassem.Apps.Held.{changes, is_latest, one_if, Shows}
use cassem.Apps.Latest.{Reach-Shows_apps}

page : Unit {0}
unfolding load_effect apps_settled handle_next_page handle_previous_page handle_create
    create_settled enabled trim
page = tt

abbrev app_of : String → AppMetadata
app_of id = record { id = id; description = none }

abbrev first_page : AppsResponse
first_page = record { apps = app_of "a" ∷ []; has_more = true; next_seek = "b" }

abbrev second_page : AppsResponse
second_page = record { apps = app_of "b" ∷ []; has_more = false; next_seek = "" }

-- A server whose pages are these two, by the seek.
abbrev Pages : Params → AppsResponse → Type 0
Pages asked found =
    ((asked.seek ≡ "") × (found ≡ first_page)) ⊎ ((asked.seek ≡ "b") × (found ≡ second_page))

abbrev opened : World
opened = rendered [] (initial, [])

abbrev first_params : Params
first_params = params_of initial

abbrev second_params : Params
second_params = record { page_size = 15; query = ""; seek = "b" }

abbrev listed : World
listed = rendered [] (apps_settled 1 false (resolved first_page) opened.view, [])

abbrev turned : World
turned = rendered [] (react goes_forth listed.view)

abbrev shown : World
shown = rendered [] (apps_settled 2 false (resolved second_page) turned.view, [])

-- On the second page an app is created.
abbrev asking : World
asking = rendered [] (react opens_create shown.view)

abbrev named : World
named = rendered [] (react (types_id " c ") asking.view)

abbrev described : World
described = rendered [] (react (types_description "the third") named.view)

abbrev creating : World
creating = rendered [] (react creates described.view)

-- The list goes back to its first page.
abbrev created : World
created = rendered [] (create_settled second_params (resolved tt) creating.view)

Reach-created : Reach Pages [] created
unfolding page
Reach-created =
    next
      (next
        (next
          (next
            (next
              (next
                (next (next here (arrives 1 first_params false first_page first (inl (refl, refl))))
                  (happens goes_forth refl))
                (arrives 2 second_params false second_page first (inr (refl, refl))))
              (happens opens_create refl))
            (happens (types_id " c ") refl))
          (happens (types_description "the third") refl))
        (happens creates refl))
      (create_ends second_params "c" "the third" (resolved tt) first)

Reach-Shows_apps_example :
    (changes created.jobs ≡ one_if created.view.submitting)
    × ((any (is_latest created.view.request_seq) created.jobs ≡ true) ⊎ Shows Pages [] created.view)
unfolding page
Reach-Shows_apps_example = Reach-Shows_apps Pages [] created Reach-created

-- Two listings are under way then, of which the first page is the latest.
created_run : (created.view.request_seq ≡ 4) × (changes created.jobs ≡ 1) × (created.view.seek ≡ "")
unfolding page
created_run = (refl, refl, refl)

b_given : listed.view.next_seek ≢ ""
unfolding page
b_given e = cc

handle_previous_page-handle_next_page_example :
    handle_previous_page (handle_next_page listed.view) ≡ listed.view
unfolding page
handle_previous_page-handle_next_page_example =
    handle_previous_page-handle_next_page listed.view refl b_given (omega arith)

handle_next_page-twice_example :
    let t = handle_next_page (handle_next_page listed.view) in
    (t.seek ≡ (handle_next_page listed.view).seek)
    × (t.page_index ≡ (handle_next_page listed.view).page_index + 1)
unfolding page
handle_next_page-twice_example = handle_next_page-twice listed.view refl b_given
