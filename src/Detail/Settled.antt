-- ===== src/Detail/Settled.antt =====
-- Every answer keeps the invariant of the page of one element.
use cassem.Base.{
  ℕ, ◌+◌, ◌==◌, ◌≡◌, refl, sym, ap, ◌∙◌, subst, inl, inr, Bool, true, false, ◌&&◌, Option, some,
  List, ◌∷◌, ◌++◌, String, arith, All, if◌then◌else◌, Bool-cases, any,
}
use cassem.Base.Pick.{Pick, All-Pick}
use cassem.Effects.{Reply, resolved, rejected, Failure}
use cassem.Detail.State.{Location, is_at, State, Job, page_job, idle}
use cassem.Detail.Handlers.{fail, can_apply_mutation_result}
use cassem.Detail.Loading.{
  Loaded, load_page, end_awaited, end_saving, page_settled, apply_page, retention_behind,
}
use cassem.Detail.World.{after}
use cassem.Detail.Shown.{
  Current, Past, one_if, changes, changes_of, is_latest, Shows, Inv, Current-Past, changes-Pick,
  any-Pick,
}
use cassem.Detail.Kept.{is_at→≡, core, same-Inv, load-Inv}

module _ (decode : String → Option String) (Answers : Location → Loaded → Type 0) where
  -- A call has ended that is not the latest loading, and its handler waits no longer, or for another
  -- call.
  pub rest-Inv :
      (v : State) (busy : Bool) (jobs rest : List Job)
      → All (Current v) rest
      → changes rest ≡ one_if busy
      → any (is_latest v.request_seq) rest ≡ any (is_latest v.request_seq) jobs
      → Inv decode Answers (record { view = v; jobs = jobs })
      → Inv decode Answers (record { view = record v { saving = busy }; jobs = rest })
  rest-Inv v busy jobs rest c single p i = record {
    present = i.present;
    keyed = i.keyed;
    current = c;
    single = single;
    settles = elim i.settles [ inl waits ↦ inl (p ∙ waits) | inr rests ↦ inr rests ];
  }

  pub fail-Inv :
      (v : State) (at : Location) (reason : Failure) (key : String) (jobs rest : List Job)
      → All (Current v) rest
      → changes rest + 1 ≡ one_if v.saving
      → any (is_latest v.request_seq) rest ≡ any (is_latest v.request_seq) jobs
      → Inv decode Answers (record { view = v; jobs = jobs })
      → Inv decode Answers (after rest (fail at reason key v))
  fail-Inv v at reason key jobs rest c single same i =
      same-Inv decode Answers (record v { saving = false }) (fail at reason key v).state rest
        (ground (arith, i.present)) (rest-Inv v false jobs rest c (ground arith) same i)

  pub gone-Inv :
      (v : State) (jobs rest : List Job)
      → All (Current v) rest
      → changes rest + 1 ≡ one_if v.saving
      → any (is_latest v.request_seq) rest ≡ any (is_latest v.request_seq) jobs
      → Inv decode Answers (record { view = v; jobs = jobs })
      → Inv decode Answers (after rest (idle (end_saving v)))
  gone-Inv v jobs rest c single same i =
      same-Inv decode Answers (record v { saving = false }) (end_saving v) rest
        (ground (arith, i.present)) (rest-Inv v false jobs rest c (ground arith) same i)

  -- The handler goes on with another call.
  pub on-Inv :
      (v : State) (job : Job) (jobs rest : List Job)
      → Current v job
      → changes_of job ≡ 1
      → is_latest v.request_seq job ≡ false
      → All (Current v) rest
      → changes rest + 1 ≡ one_if v.saving
      → any (is_latest v.request_seq) rest ≡ any (is_latest v.request_seq) jobs
      → Inv decode Answers (record { view = v; jobs = jobs })
      → Inv decode Answers (record { view = v; jobs = job ∷ rest })
  on-Inv v job jobs rest d one p c single same i = record {
    present = i.present;
    keyed = i.keyed;
    current = (d, c);
    single = omega (arith, one);
    settles = elim i.settles [
      | inl waits ↦ inl (ground (arith, p, same, waits))
      | inr rests ↦ inr rests
    ];
  }

  -- The loading behind a change, of the location that is shown.
  pub again-Inv :
      (v u : State) (at : Location) (jobs rest : List Job)
      → u.mounted ≡ v.mounted
      → u.location ≡ v.location
      → u.load_key ≡ v.load_key
      → u.request_seq ≡ v.request_seq
      → u.saving ≡ v.saving
      → can_apply_mutation_result at v ≡ true
      → All (Current v) rest
      → changes rest + 1 ≡ one_if v.saving
      → Inv decode Answers (record { view = v; jobs = jobs })
      → Inv decode Answers (after rest (load_page at true u))
  again-Inv v u at jobs rest m l k n b applies c single i =
      let place : is_at v.location at ≡ true = ground arith in
      let same : u.location ≡ at = l ∙ is_at→≡ v.location at place in
      subst (λ (place : Location). Inv decode Answers (after rest (load_page place true u))) same
        (load-Inv decode Answers u true rest (m ∙ i.present) (k ∙ i.keyed ∙ ap some (sym l))
          (subst (λ n. All (Past (n + 1)) rest) (sym n) (Current-Past v rest c))
          (single ∙ ap one_if (sym b)))

  -- What an answer to the latest loading leaves on the screen.
  pub resolved-Shows :
      (v : State) (loaded : Loaded)
      → Answers v.location loaded
      → Shows decode Answers (apply_page decode (resolved loaded) v)
  resolved-Shows v loaded a = inr (loaded, a, refl, refl, refl, refl, tt)

  latest-Inv :
      (v : State) (busy : Bool) (reply : Reply Loaded) (id : ℕ) (jobs rest : List Job)
      → All (Current v) rest
      → changes rest ≡ one_if busy
      → Shows decode Answers (apply_page decode reply v)
      → Inv decode Answers (record { view = v; jobs = jobs })
      → Inv decode Answers (record {
        view = record (apply_page decode reply v) { saving = busy };
        jobs = retention_behind id reply ++ rest;
      })
  latest-Inv v busy (resolved loaded) id jobs rest c single shown i = record {
    present = i.present;
    keyed = i.keyed;
    current = (tt, c);
    single = omega (arith, single);
    settles = inr (refl, shown);
  }
  latest-Inv v busy (rejected reason) id jobs rest c single shown i = record {
    present = i.present;
    keyed = i.keyed;
    current = c;
    single = single;
    settles = inr (refl, shown);
  }

  core_of_end :
      (v : State) (awaited busy : Bool) (reply : Reply Loaded)
      → v.mounted ≡ true
      → (if awaited then false else v.saving) ≡ busy
      → core (end_awaited awaited (apply_page decode reply v))
        ≡ core (record (apply_page decode reply v) { saving = busy })
  core_of_end v true busy (resolved found) m b = ground arith
  core_of_end v true busy (rejected reason) m b = ground arith
  core_of_end v false busy (resolved found) m b = ground arith
  core_of_end v false busy (rejected reason) m b = ground arith

  core_of_stale :
      (v : State) (awaited busy : Bool)
      → v.mounted ≡ true
      → (if awaited then false else v.saving) ≡ busy
      → core (end_awaited awaited v) ≡ core (record v { saving = busy })
  core_of_stale v true busy m b = ground arith
  core_of_stale v false busy m b = ground arith

  pub page-Inv :
      (v : State) (jobs rest : List Job) (id : ℕ) (at : Location) (awaited : Bool)
      (reply : Reply Loaded)
      → (at ≡ v.location → Shows decode Answers (apply_page decode reply v))
      → Pick (page_job id at awaited) jobs rest
      → Inv decode Answers (record { view = v; jobs = jobs })
      → Inv decode Answers (after rest (page_settled decode id awaited reply v))
  unfolding page_settled
  page-Inv v jobs rest id at awaited reply shows p i =
      let ((le, c), others) = All-Pick (Current v) p i.current in
      let busy : Bool = if awaited then false else v.saving in
      let single : changes rest ≡ one_if busy = ground (arith, i.single, changes-Pick p) in
      elim (Bool-cases (v.mounted && id == v.request_seq)) [
        | inl counts ↦
            let here_ : at ≡ v.location = elim c [
              | inl older ↦ absurd (ground arith)
              | inr same ↦ same
            ] in
            rw counts (
              same-Inv decode Answers (record (apply_page decode reply v) { saving = busy })
                (end_awaited awaited (apply_page decode reply v))
                (retention_behind id reply ++ rest)
                (core_of_end v awaited busy reply i.present refl)
                (latest-Inv v busy reply id jobs rest others single (shows here_) i))
        | inr stale ↦
            let same : any (is_latest v.request_seq) rest ≡ any (is_latest v.request_seq) jobs =
              ground (arith, i.present, any-Pick (is_latest v.request_seq) p) in
            rw stale (
              same-Inv decode Answers (record v { saving = busy }) (end_awaited awaited v) rest
                (core_of_stale v awaited busy i.present refl)
                (rest-Inv v busy jobs rest others single same i))
      ]
