-- ===== src/Detail/Latest.antt =====
-- The page of one element shows what the server has answered for its location, and what it asks the
-- server to change.
use cassem.Base.{
  ◌+◌, ◌≡◌, refl, subst, inl, inr, true, false, not, Option, some, List, [], ◌∷◌, String, arith,
  All, Bool-cases, any,
}
use cassem.Base.Pick.{Pick, All-Pick}
use cassem.Domain.{Number, Element, is_truthy}
use cassem.Effects.{Reply, resolved, rejected, other_error}
use cassem.Content.Parsers.{Parsers}
use cassem.Content.Validation.{valid_result}
use cassem.Detail.State.{Location, State, Job, submit_job, put_job, get_job, publish_job}
use cassem.Detail.Handlers.{
  submit_settled, put_settled, get_settled, publish_settled, version_to_publish,
  can_apply_mutation_result, closed_dialogs,
}
use cassem.Detail.Loading.{Loaded, retention_settled}
use cassem.Detail.World.{
  World, after, Step, happens, page_arrives, page_fails, retention_ends, submit_ends, put_ends,
  get_ends, publish_ends, Reach, here, next,
}
use cassem.Detail.Shown.{Current, one_if, changes, is_latest, Shows, Inv, changes-Pick, any-Pick}
use cassem.Detail.Reactions.{react-Inv, start-Inv}
use cassem.Detail.Kept.{same-Inv}
use cassem.Detail.Settled.{
  rest-Inv, fail-Inv, gone-Inv, on-Inv, again-Inv, resolved-Shows, page-Inv,
}

module _ (decode : String → Option String) (Answers : Location → Loaded → Type 0) where
  submit-Inv :
      (v : State) (at : Location) (reply : Reply (Unit {0})) (jobs rest : List Job)
      → All (Current v) rest
      → changes rest + 1 ≡ one_if v.saving
      → any (is_latest v.request_seq) rest ≡ any (is_latest v.request_seq) jobs
      → Inv decode Answers (record { view = v; jobs = jobs })
      → Inv decode Answers (after rest (submit_settled at reply v))
  unfolding submit_settled
  submit-Inv v at (rejected reason) jobs rest c single same i =
      fail-Inv decode Answers v at reason "elements.error.createVersion" jobs rest c single same i
  submit-Inv v at (resolved done) jobs rest c single same i =
      elim (Bool-cases (can_apply_mutation_result at v)) [
        | inl applies ↦ rw applies (
            again-Inv decode Answers v
              (record v {
                new_version_open = false;
                edit_validation = valid_result;
                loading = true;
              })
              at jobs rest refl refl refl refl refl applies c single i)
        | inr gone ↦ rw gone (gone-Inv decode Answers v jobs rest c single same i)
      ]

  put-Inv :
      (v : State) (at : Location) (previous : Option Number) (reply : Reply (Unit {0}))
      (jobs rest : List Job)
      → Current v (get_job at previous)
      → All (Current v) rest
      → changes rest + 1 ≡ one_if v.saving
      → any (is_latest v.request_seq) rest ≡ any (is_latest v.request_seq) jobs
      → Inv decode Answers (record { view = v; jobs = jobs })
      → Inv decode Answers (after rest (put_settled at previous reply v))
  unfolding put_settled
  put-Inv v at previous (rejected reason) jobs rest d c single same i =
      fail-Inv decode Answers v at reason "elements.error.publishDirectly" jobs rest c single same i
  put-Inv v at previous (resolved done) jobs rest d c single same i =
      elim (Bool-cases (can_apply_mutation_result at v)) [
        | inl applies ↦
            rw applies
              (on-Inv decode Answers v (get_job at previous) jobs rest d refl refl c single same i)
        | inr gone ↦ rw gone (gone-Inv decode Answers v jobs rest c single same i)
      ]

  get-Inv :
      (v : State) (at : Location) (previous : Option Number) (reply : Reply Element)
      (jobs rest : List Job)
      → Current v (get_job at previous)
      → All (Current v) rest
      → changes rest + 1 ≡ one_if v.saving
      → any (is_latest v.request_seq) rest ≡ any (is_latest v.request_seq) jobs
      → Inv decode Answers (record { view = v; jobs = jobs })
      → Inv decode Answers (after rest (get_settled at previous reply v))
  unfolding get_settled
  get-Inv v at previous (rejected reason) jobs rest d c single same i =
      fail-Inv decode Answers v at reason "elements.error.publishDirectly" jobs rest c single same i
  get-Inv v at previous (resolved updated) jobs rest d c single same i =
      let version : Number = version_to_publish previous updated.metadata in
      elim (Bool-cases (not (can_apply_mutation_result at v))) [
        | inl gone ↦ rw gone (gone-Inv decode Answers v jobs rest c single same i)
        | inr applies ↦ rw applies (elim (Bool-cases (not (is_truthy (some version)))) [
          | inl missing ↦ rw missing (
              fail-Inv decode Answers v at other_error "elements.error.publishDirectly" jobs rest c
                single same i)
          | inr found ↦ rw found (
              on-Inv decode Answers v (publish_job at version) jobs rest (d, ground arith) refl refl
                c single same i)
        ])
      ]

  publish-Inv :
      (v : State) (at : Location) (version : Number) (reply : Reply (Unit {0}))
      (jobs rest : List Job)
      → All (Current v) rest
      → changes rest + 1 ≡ one_if v.saving
      → any (is_latest v.request_seq) rest ≡ any (is_latest v.request_seq) jobs
      → Inv decode Answers (record { view = v; jobs = jobs })
      → Inv decode Answers (after rest (publish_settled at version reply v))
  unfolding publish_settled
  publish-Inv v at version (rejected reason) jobs rest c single same i =
      fail-Inv decode Answers v at reason "elements.error.publishDirectly" jobs rest c single same i
  publish-Inv v at version (resolved done) jobs rest c single same i =
      elim (Bool-cases (can_apply_mutation_result at v)) [
        | inl applies ↦ rw applies (
            again-Inv decode Answers v (closed_dialogs v) at jobs rest refl refl refl refl refl
              applies c single i)
        | inr gone ↦ rw gone (gone-Inv decode Answers v jobs rest c single same i)
      ]

  -- What remains when a call of a handler that changes the element ends.
  left :
      (v : State) (job : Job) {jobs rest : List Job}
      → changes (job ∷ []) ≡ 1
      → is_latest v.request_seq job ≡ false
      → Pick job jobs rest
      → Inv decode Answers (record { view = v; jobs = jobs })
      → Current v job
        × All (Current v) rest
        × (changes rest + 1 ≡ one_if v.saving)
        × (any (is_latest v.request_seq) rest ≡ any (is_latest v.request_seq) jobs)
  left v job one other p i =
      let (c, others) = All-Pick (Current v) p i.current in
      (
        c,
        others,
        omega (arith, i.single, changes-Pick p, one),
        ground (arith, any-Pick (is_latest v.request_seq) p, other),
      )

  pub Step-Inv :
      (parsers : Parsers) {w w' : World}
      → Step parsers decode Answers w w'
      → Inv decode Answers w
      → Inv decode Answers w'
  unfolding retention_settled
  Step-Inv parsers {w} (happens event h) i =
      react-Inv decode Answers parsers event w.view w.jobs h i
  Step-Inv parsers {w} (page_arrives id at awaited loaded {rest} p a) i =
      page-Inv decode Answers w.view w.jobs rest id at awaited (resolved loaded)
        (λ e.
          resolved-Shows decode Answers w.view loaded (subst (λ place. Answers place loaded) e a))
        p i
  Step-Inv parsers {w} (page_fails id at awaited reason {rest} p) i =
      page-Inv decode Answers w.view w.jobs rest id at awaited (rejected reason) (λ e. inl refl) p i
  Step-Inv parsers {w} (retention_ends id reply {rest} p) i =
      let (c, others) = All-Pick (Current w.view) p i.current in
      same-Inv decode Answers (record w.view { saving = w.view.saving })
        (retention_settled id reply w.view) rest (ground arith)
        (rest-Inv decode Answers w.view w.view.saving w.jobs rest others
          (omega (arith, i.single, changes-Pick p))
          (ground (arith, any-Pick (is_latest w.view.request_seq) p)) i)
  Step-Inv parsers {w} (submit_ends at raw reply {rest} p) i =
      let (c, others, single, same) = left w.view (submit_job at raw) refl refl p i in
      submit-Inv w.view at reply w.jobs rest others single same i
  Step-Inv parsers {w} (put_ends at raw previous reply {rest} p) i =
      let (c, others, single, same) = left w.view (put_job at raw previous) refl refl p i in
      put-Inv w.view at previous reply w.jobs rest c others single same i
  Step-Inv parsers {w} (get_ends at previous reply {rest} p) i =
      let (c, others, single, same) = left w.view (get_job at previous) refl refl p i in
      get-Inv w.view at previous reply w.jobs rest c others single same i
  Step-Inv parsers {w} (publish_ends at version reply {rest} p) i =
      let (c, others, single, same) = left w.view (publish_job at version) refl refl p i in
      publish-Inv w.view at version reply w.jobs rest others single same i

  pub Reach-Inv :
      (parsers : Parsers) {at : Location} {w : World}
      → Reach parsers decode Answers at w
      → Inv decode Answers w
  Reach-Inv parsers {at} here = start-Inv decode Answers parsers at
  Reach-Inv parsers (next r s) = Step-Inv parsers s (Reach-Inv parsers r)

-- Whatever the user does, also by going to other locations, and whatever the server answers in whatever
-- order, while the page of one element stays mounted: once the latest loading has ended, the page is
-- not loading, and shows nothing, or the content, versions and operations of one answer for the
-- location that it is at, and a diff, if there is one, of two of these versions.
pub Reach-Shows_page :
    (parsers : Parsers) (decode : String → Option String) (Answers : Location → Loaded → Type 0)
    (at : Location) (w : World)
    → Reach parsers decode Answers at w
    → any (is_latest w.view.request_seq) w.jobs ≡ false
    → (w.view.loading ≡ false) × Shows decode Answers w.view
Reach-Shows_page parsers decode Answers at w r ended =
    elim (Reach-Inv decode Answers parsers r).settles [
      | inl waits ↦ absurd (ground arith)
      | inr rests ↦ rests
    ]

-- In the same runs of the page of one element: every request that changes the element is for a
-- location that is not missing, a version that is to be published is none of 0, NaN and a missing
-- one, and the latest loading is that of the location that the page is at; and of the requests
-- that change the element, with those that a handler makes between and behind them, exactly one is
-- under way while the page is saving, and none otherwise.
pub Reach-IsSound_page :
    (parsers : Parsers) (decode : String → Option String) (Answers : Location → Loaded → Type 0)
    (at : Location) (w : World)
    → Reach parsers decode Answers at w
    → All (Current w.view) w.jobs × (changes w.jobs ≡ one_if w.view.saving)
Reach-IsSound_page parsers decode Answers at w r =
    let i = Reach-Inv decode Answers parsers r in (i.current, i.single)
