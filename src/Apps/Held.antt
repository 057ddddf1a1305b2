-- ===== src/Apps/Held.antt =====
-- What the page of apps relies on between two steps, and how it outlives a render.
use cassem.Base.{
  ℕ, ◌+◌, ◌≤◌, ◌<◌, ◌==◌, ◌≡◌, refl, sym, ap, ◌∙◌, ◌⊎◌, inl, inr, Bool, true, false, ◌||◌, some,
  List, [], ◌∷◌, ◌++◌, arith, All, any, Bool-cases, eq_iff,
}
use cassem.Base.Pick.{Pick, first, later}
use cassem.Apps.{
  State, Params, params_of, Job, apps_job, create_job, delete_job, AppsResponse, load_effect,
  same_params, is_key,
}
use cassem.Apps.World.{World, rendered, is_chosen, is_free}

-- A listing is for what is chosen, or it is an older one. A change was asked for in its dialog, which
-- is still open, and the listing behind it will be for what is chosen.
abbrev pub Current : State → Job → Type 0
Current v (apps_job id asked awaited) =
    (id ≤ v.request_seq) × ((id < v.request_seq) ⊎ (asked ≡ params_of v))
Current v (create_job asked id description) = (asked ≡ params_of v) × (v.create_open ≡ true)
Current v (delete_job asked id) = (asked ≡ params_of v) × (is_chosen v.delete_target ≡ true)

-- A listing and no change.
abbrev pub Listing : ℕ → Job → Type 0
Listing n (apps_job id asked awaited) = id ≤ n
Listing n (create_job asked id description) = ⊥
Listing n (delete_job asked id) = ⊥

abbrev pub one_if : Bool → ℕ
one_if true = 1
one_if false = 0

-- Whether the handler behind a call locks the page.
abbrev pub locks : Job → Bool
locks (apps_job id asked awaited) = awaited
locks (create_job asked id description) = true
locks (delete_job asked id) = true

abbrev pub changes : List Job → ℕ
changes [] = 0
changes (job ∷ jobs) = one_if (locks job) + changes jobs

abbrev pub is_latest : ℕ → Job → Bool
is_latest n (apps_job id asked awaited) = id == n
is_latest n (create_job asked id description) = false
is_latest n (delete_job asked id) = false

module _ (Answers : Params → AppsResponse → Type 0) (failed : List ℕ) where
  -- The list is one that the server gave for what is chosen, or empty because the latest listing has
  -- failed.
  abbrev pub Shows : State → Type 0
  Shows v =
      ((found : AppsResponse) × (Answers (params_of v) found × (v.apps ≡ found.apps)))
      ⊎ ((v.apps ≡ []) × (any (λ id. id == v.request_seq) failed ≡ true))

  abbrev pub Waits : State → List Job → Type 0
  Waits v jobs = (any (is_latest v.request_seq) jobs ≡ true) ⊎ Shows v

  pub record Inv (w : World) : Type 0 where
    pub present : w.view.mounted ≡ true
    pub keyed : w.view.load_key ≡ some (params_of w.view)
    pub single : changes w.jobs ≡ one_if w.view.submitting
    pub current : All (Current w.view) w.jobs
    pub shows : Waits w.view w.jobs

  -- What has to hold behind a handler, before the effect of the render that it causes.
  pub record Ready (asked : Params) (s : State) (jobs : List Job) : Type 0 where
    pub keyed : s.load_key ≡ some asked
    pub single : changes jobs ≡ one_if s.submitting
    pub kept : (asked ≡ params_of s) ⊎ All (Listing s.request_seq) jobs
    pub same : asked ≡ params_of s → All (Current s) jobs × Waits s jobs

same_params→≡ : (p q : Params) → same_params p q ≡ true → p ≡ q
same_params→≡ p q h =
    let size : p.page_size ≡ q.page_size = ground arith in
    let query : p.query ≡ q.query = ground (arith, eq_iff p.query q.query) in
    let seek : p.seek ≡ q.seek = ground (arith, eq_iff p.seek q.seek) in
    λ i. record { page_size = size i; query = query i; seek = seek i }

same_params_refl : (p : Params) → same_params p p ≡ true
same_params_refl p = ground (arith, eq_iff p.query p.query, eq_iff p.seek p.seek)

-- A change of the page that no call under way depends on.
pub All-kept :
    (v u : State) (jobs : List Job)
    → v.request_seq ≡ u.request_seq
    → params_of v ≡ params_of u
    → (v.create_open ≡ true → u.create_open ≡ true)
    → (is_chosen v.delete_target ≡ true → is_chosen u.delete_target ≡ true)
    → All (Current v) jobs
    → All (Current u) jobs
All-kept v u [] n q c d a = tt
All-kept v u (apps_job id asked awaited ∷ jobs) n q c d ((le, now), a) = (
  (omega arith, elim now [ inl older ↦ inl (omega arith) | inr same ↦ inr (same ∙ q) ]),
  All-kept v u jobs n q c d a,
)
All-kept v u (create_job asked id description ∷ jobs) n q c d ((same, h), a) =
    ((same ∙ q, c h), All-kept v u jobs n q c d a)
All-kept v u (delete_job asked id ∷ jobs) n q c d ((same, h), a) =
    ((same ∙ q, d h), All-kept v u jobs n q c d a)

-- Listings do not depend on the dialogs.
pub All-listings :
    (v u : State) (jobs : List Job)
    → v.request_seq ≡ u.request_seq
    → params_of v ≡ params_of u
    → All (Listing v.request_seq) jobs
    → All (Current v) jobs
    → All (Current u) jobs
All-listings v u [] n q l a = tt
All-listings v u (apps_job id asked awaited ∷ jobs) n q (_, l) ((le, now), a) = (
  (omega arith, elim now [ inl older ↦ inl (omega arith) | inr same ↦ inr (same ∙ q) ]),
  All-listings v u jobs n q l a,
)
All-listings v u (create_job asked id description ∷ jobs) n q (never, l) a = elim never [ ]
All-listings v u (delete_job asked id ∷ jobs) n q (never, l) a = elim never [ ]

-- While the page is not locked, or no dialog is open, no change is under way.
pub unlocked-Listing :
    (v : State) (jobs : List Job)
    → changes jobs ≡ 0
    → All (Current v) jobs
    → All (Listing v.request_seq) jobs
unlocked-Listing v [] h a = tt
unlocked-Listing v (apps_job id asked awaited ∷ jobs) h ((le, _), a) =
    (le, unlocked-Listing v jobs (omega arith) a)
unlocked-Listing v (create_job asked id description ∷ jobs) h a = absurd (omega arith)
unlocked-Listing v (delete_job asked id ∷ jobs) h a = absurd (omega arith)

pub free-Listing :
    (v : State) (jobs : List Job)
    → is_free v ≡ true
    → All (Current v) jobs
    → All (Listing v.request_seq) jobs
free-Listing v [] h a = tt
free-Listing v (apps_job id asked awaited ∷ jobs) h ((le, _), a) = (le, free-Listing v jobs h a)
free-Listing v (create_job asked id description ∷ jobs) h ((_, c), a) = ground arith
free-Listing v (delete_job asked id ∷ jobs) h ((_, c), a) = ground arith

pub Listing-le : (m n : ℕ) (jobs : List Job) → m ≤ n → All (Listing m) jobs → All (Listing n) jobs
Listing-le m n [] h a = tt
Listing-le m n (apps_job id asked awaited ∷ jobs) h (le, a) = (omega arith, Listing-le m n jobs h a)
Listing-le m n (create_job asked id description ∷ jobs) h (never, a) = elim never [ ]
Listing-le m n (delete_job asked id ∷ jobs) h (never, a) = elim never [ ]

-- The listings of before are older than a new one.
pub All-older :
    (s u : State) (jobs : List Job)
    → s.request_seq < u.request_seq
    → All (Listing s.request_seq) jobs
    → All (Current u) jobs
All-older s u [] h a = tt
All-older s u (apps_job id asked awaited ∷ jobs) h (le, a) =
    ((omega arith, inl (omega arith)), All-older s u jobs h a)
All-older s u (create_job asked id description ∷ jobs) h (never, a) = elim never [ ]
All-older s u (delete_job asked id ∷ jobs) h (never, a) = elim never [ ]

module _ (Answers : Params → AppsResponse → Type 0) (failed : List ℕ) where
  pub rendered-Inv :
      (asked : Params) (s : State) (sent rest : List Job)
      → Ready Answers failed asked s (sent ++ rest)
      → Inv Answers failed (rendered rest (s, sent))
  unfolding load_effect
  rendered-Inv asked s sent rest r =
      let test : is_key s.load_key (params_of s) ≡ same_params asked (params_of s) =
        ap (λ found. is_key found (params_of s)) r.keyed in
      let itself = same_params_refl (params_of s) in
      elim (Bool-cases (is_key s.load_key (params_of s))) [
        | inl same ↦
            let q = same_params→≡ asked (params_of s) (sym test ∙ same) in
            rw same (record {
              present = refl;
              keyed = r.keyed ∙ ap some q;
              single = r.single;
              current =
                  All-kept s (record s { mounted = true }) (sent ++ rest) refl refl (λ h. h)
                    (λ h. h) (r.same q).0;
              shows = (r.same q).1;
            })
        | inr changed ↦ rw changed (record {
          present = refl;
          keyed = refl;
          single = omega (arith, r.single);
          current = (
            (omega arith, inr refl),
            elim r.kept [
              | inl q ↦ cc
              | inr older ↦
                  All-older s (record s { request_seq = s.request_seq + 1 }) (sent ++ rest)
                    (omega arith) older
            ],
          );
          shows = inl (ground arith);
        })
      ]

-- One call has ended.
pub changes-Pick :
    {job : Job} {jobs rest : List Job}
    → Pick job jobs rest
    → changes jobs ≡ one_if (locks job) + changes rest
changes-Pick first = refl
changes-Pick (later p) = omega (arith, changes-Pick p)

pub any-Pick :
    (p : Job → Bool) {job : Job} {jobs rest : List Job}
    → Pick job jobs rest
    → any p jobs ≡ (p job || any p rest)
any-Pick p first = refl
any-Pick p (later q) = ground (arith, any-Pick p q)
