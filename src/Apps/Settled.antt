-- ===== src/Apps/Settled.antt =====
-- The end of a call keeps the invariant of the page of apps.
use cassem.Base.{
  ℕ, ◌+◌, ◌==◌, ◌≡◌, refl, sym, ap, ◌∙◌, ◌⊎◌, inl, inr, Bool, true, false, ◌&&◌, none, List, [],
  ◌++◌, String, arith, All, any, Bool-cases, if◌then◌else◌,
}
use cassem.Base.Pick.{Pick, All-Pick}
use cassem.Effects.{Reply, resolved, rejected, get_error_message, Message, label}
use cassem.Apps.{
  State, Params, params_of, Job, apps_job, create_job, delete_job, AppsResponse, list_apps,
  apply_apps, apps_settled, create_settled, delete_settled, load_apps, reset_paging,
}
use cassem.Apps.World.{World, rendered, is_chosen}
use cassem.Apps.Held.{
  Current, Listing, changes, is_latest, one_if, locks, Shows, Inv, Ready, All-kept,
  unlocked-Listing, Listing-le, All-older, changes-Pick, any-Pick, rendered-Inv,
}

-- Of the calls beside one that locks the page, none does.
locked_alone : (busy : Bool) (others : ℕ) → 1 + others ≡ one_if busy → (busy ≡ true) × (others ≡ 0)
locked_alone true others h = (refl, omega arith)
locked_alone false others h = absurd (omega arith)

module _ (Answers : Params → AppsResponse → Type 0) (failed : List ℕ) where
  -- A handler that locks the page has ended behind its last call.
  ended-Ready :
      (w : World) (s : State) (job : Job) (rest : List Job)
      → Pick job w.jobs rest
      → Inv Answers failed w
      → (s.request_seq ≡ w.view.request_seq)
        × (s.load_key ≡ w.view.load_key)
        × (params_of w.view ≡ params_of s)
        × (s.create_open ≡ w.view.create_open)
        × (s.delete_target ≡ w.view.delete_target)
      → s.submitting ≡ (if locks job then false else w.view.submitting)
      → (any (is_latest w.view.request_seq) rest ≡ true) ⊎ Shows Answers failed s
      → Ready Answers failed (params_of w.view) s rest
  ended-Ready w s job rest p i (n, k, q, c, d) busy shown = record {
    keyed = k ∙ i.keyed;
    single = ground (arith, changes-Pick p, i.single, busy);
    kept = inl q;
    same = λ _. (
      All-kept w.view s rest (sym n) q (λ h. c ∙ h) (λ h. ap is_chosen d ∙ h)
          (All-Pick (Current w.view) p i.current).1,
      elim shown [
        | inl waits ↦ inl (ap (λ m. any (is_latest m) rest) n ∙ waits)
        | inr shows ↦ inr shows
      ],
    );
  }

  -- A change has ended well: what is chosen is the first page, which the handler lists.
  relisted-Ready :
      (w : World) (s : State) (job : Job) (rest : List Job)
      → Pick job w.jobs rest
      → Inv Answers failed w
      → (s.request_seq ≡ w.view.request_seq)
        × (s.load_key ≡ w.view.load_key)
        × (s.submitting ≡ w.view.submitting)
      → locks job ≡ true
      → Ready Answers failed
          (params_of w.view)
          (load_apps (params_of w.view) true s).0
          ((load_apps (params_of w.view) true s).1 ++ rest)
  relisted-Ready w s job rest p i (n, k, b) locked =
      let (busy, none_else) =
        locked_alone w.view.submitting (changes rest)
          (ground (arith, changes-Pick p, i.single, locked)) in
      let older : All (Listing w.view.request_seq) rest =
        unlocked-Listing w.view rest none_else (All-Pick (Current w.view) p i.current).1 in
      record {
        keyed = k ∙ i.keyed;
        single = ground (arith, none_else, b, busy);
        kept = inr (
          omega arith,
          Listing-le w.view.request_seq (s.request_seq + 1) rest (omega arith) older,
        );
        same = λ q. (
          (
            (omega arith, inr q),
            All-older w.view (load_apps (params_of w.view) true s).0 rest (omega arith) older,
          ),
          inl (ground arith),
        );
      }

  -- What the end of a listing leaves alone.
  abbrev Beside : State → State → Type 0
  Beside v s =
      (s.request_seq ≡ v.request_seq)
      × (s.load_key ≡ v.load_key)
      × (params_of v ≡ params_of s)
      × (s.create_open ≡ v.create_open)
      × (s.delete_target ≡ v.delete_target)
      × (s.submitting ≡ v.submitting)

  -- The latest answer is shown, another one changes nothing.
  pub listed :
      (w : World) (id : ℕ) (asked : Params) (awaited : Bool) (reply : Reply AppsResponse)
      (rest : List Job)
      → Pick (apps_job id asked awaited) w.jobs rest
      → Inv Answers failed w
      → Beside w.view (apply_apps reply w.view)
      → (asked ≡ params_of w.view
          → id ≡ w.view.request_seq
          → Shows Answers failed (apply_apps reply w.view))
      → Beside w.view (list_apps id reply w.view)
        × ((any (is_latest w.view.request_seq) rest ≡ true)
            ⊎ Shows Answers failed (list_apps id reply w.view))
  listed w id asked awaited reply rest p i beside answer =
      elim (Bool-cases (w.view.mounted && id == w.view.request_seq)) [
        | inl counts ↦
            let (le, now) = (All-Pick (Current w.view) p i.current).0 in
            let latest : asked ≡ params_of w.view = elim now [
              | inl older ↦ ground arith
              | inr same ↦ same
            ] in
            rw counts (beside, inr (answer latest (ground arith)))
        | inr stale ↦ rw stale (
          (refl, refl, refl, refl, refl, refl),
          elim i.shows [
            | inl pending ↦
                inl (ground (arith, i.present, any-Pick (is_latest w.view.request_seq) p))
            | inr shown ↦ inr shown
          ],
        )
      ]

  pub settled-Inv :
      (w : World) (id : ℕ) (asked : Params) (awaited : Bool) (reply : Reply AppsResponse)
      (rest : List Job)
      → Pick (apps_job id asked awaited) w.jobs rest
      → Inv Answers failed w
      → Beside w.view (list_apps id reply w.view)
        × ((any (is_latest w.view.request_seq) rest ≡ true)
            ⊎ Shows Answers failed (list_apps id reply w.view))
      → Inv Answers failed (rendered rest (apps_settled id awaited reply w.view, []))
  unfolding apps_settled
  settled-Inv w id asked true reply rest p i ((n, k, q, c, d, b), shown) =
      rendered-Inv Answers failed (params_of w.view) (apps_settled id true reply w.view) [] rest (
        ended-Ready w (record (list_apps id reply w.view) { submitting = false })
          (apps_job id asked true) rest p i (n, k, q, c, d) refl shown)
  settled-Inv w id asked false reply rest p i ((n, k, q, c, d, b), shown) =
      rendered-Inv Answers failed (params_of w.view) (apps_settled id false reply w.view) [] rest (
        ended-Ready w (list_apps id reply w.view) (apps_job id asked false) rest p i (n, k, q, c, d)
          b shown)

  -- A change that has failed unlocks the page, and its dialog stays open.
  failed-Ready :
      (w : World) (message : Message) (job : Job) (rest : List Job)
      → Pick job w.jobs rest
      → Inv Answers failed w
      → locks job ≡ true
      → is_latest w.view.request_seq job ≡ false
      → Ready Answers failed
          (params_of w.view)
          (record w.view { error = message; submitting = false })
          rest
  failed-Ready w message job rest p i locked other =
      ended-Ready w (record w.view { error = message; submitting = false }) job rest p i
        (refl, refl, refl, refl, refl) (ground arith)
        (elim i.shows [
          | inl waits ↦ inl (ground (arith, any-Pick (is_latest w.view.request_seq) p))
          | inr shown ↦ inr shown
        ])

  pub create_settled-Ready :
      (w : World) (id description : String) (reply : Reply (Unit {0})) (rest : List Job)
      → Pick (create_job (params_of w.view) id description) w.jobs rest
      → Inv Answers failed w
      → Ready Answers failed
          (params_of w.view)
          (create_settled (params_of w.view) reply w.view).0
          ((create_settled (params_of w.view) reply w.view).1 ++ rest)
  unfolding create_settled
  create_settled-Ready w id description (resolved done) rest p i =
      relisted-Ready w
        (reset_paging (record w.view { create_open = false; app_id = ""; description = "" }))
        (create_job (params_of w.view) id description) rest p i (refl, refl, refl) refl
  create_settled-Ready w id description (rejected reason) rest p i =
      failed-Ready w (get_error_message reason (label "management.apps.createFailed"))
        (create_job (params_of w.view) id description) rest p i refl refl

  pub delete_settled-Ready :
      (w : World) (id : String) (reply : Reply (Unit {0})) (rest : List Job)
      → Pick (delete_job (params_of w.view) id) w.jobs rest
      → Inv Answers failed w
      → Ready Answers failed
          (params_of w.view)
          (delete_settled (params_of w.view) reply w.view).0
          ((delete_settled (params_of w.view) reply w.view).1 ++ rest)
  unfolding delete_settled
  delete_settled-Ready w id (resolved done) rest p i =
      relisted-Ready w (reset_paging (record w.view { delete_target = none }))
        (delete_job (params_of w.view) id) rest p i (refl, refl, refl) refl
  delete_settled-Ready w id (rejected reason) rest p i =
      failed-Ready w (get_error_message reason (label "management.apps.deleteFailed"))
        (delete_job (params_of w.view) id) rest p i refl refl
