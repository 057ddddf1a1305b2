-- ===== src/Detail/Reactions.antt =====
-- Every event of the page of one element keeps its invariant.
use cassem.Base.{
  ℕ, ◌+◌, ◌==◌, ◌≡◌, refl, sym, ap, ◌∙◌, subst, inl, inr, true, false, not, ◌||◌, Option, some,
  none, List, [], String, arith, All, Bool-cases, trim,
}
use cassem.Domain.{Element}
use cassem.Content.Parsers.{Parsers}
use cassem.Detail.State.{
  Location, is_missing, is_at, State, initial, Job, submit_job, put_job, latest_of, metadata_of,
}
use cassem.Detail.Handlers.{
  begin, validation_of, close_new_version_dialog, validate_later, handle_open_new_version,
  handle_submit_new_version, handle_publish_directly, handle_load_diff, diff_at, diff_of,
  version_at,
}
use cassem.Detail.Loading.{Loaded, load_effect, is_load_key}
use cassem.Detail.World.{
  after, Event, renews, moves, opens_new_version, closes_new_version, submits, opens_confirm,
  closes_confirm, confirms, shows_diff, closes_preview, validates, types_raw, picks_base,
  picks_compare, picks_tab, previews, enabled, react, start, move,
}
use cassem.Detail.Shown.{Current, Past, one_if, changes_of, is_latest, Inv, Current-Past}
use cassem.Detail.Kept.{is_at→≡, core, same-Inv, load-Inv}

module _ (decode : String → Option String) (Answers : Location → Loaded → Type 0) where
  effect-Inv :
      (v s : State) (jobs : List Job)
      → s.request_seq ≡ v.request_seq
      → s.saving ≡ v.saving
      → s.load_key ≡ v.load_key
      → (s.location ≡ v.location → core (record s { mounted = true }) ≡ core v)
      → Inv decode Answers (record { view = v; jobs = jobs })
      → Inv decode Answers (after jobs (load_effect s))
  unfolding load_effect
  effect-Inv v s jobs n b k same i = elim (Bool-cases (is_load_key s.load_key s.location)) [
    | inl stays ↦
        let at : is_at v.location s.location ≡ true =
          sym (ap (λ key. is_load_key key s.location) (k ∙ i.keyed)) ∙ stays in
        rw stays (
          same-Inv decode Answers v (record s { mounted = true }) jobs
            (same (sym (is_at→≡ v.location s.location at))) i)
    | inr changed ↦ rw changed (
        load-Inv decode Answers (record s { mounted = true; load_key = some s.location }) false jobs
          refl refl (subst (λ n. All (Past (n + 1)) jobs) (sym n) (Current-Past v jobs i.current))
          (omega (arith, i.single, ap one_if b)))
  ]

  -- A change begins.
  begun-Inv :
      (parsers : Parsers) (request : Location → String → Job) (v : State) (jobs : List Job)
      → ((raw : String) → is_missing v.location ≡ false → Current v (request v.location raw))
      → changes_of (request v.location v.edit_raw) ≡ 1
      → is_latest v.request_seq (request v.location v.edit_raw) ≡ false
      → v.saving ≡ false
      → Inv decode Answers (record { view = v; jobs = jobs })
      → Inv decode Answers (after jobs (begin parsers request v))
  begun-Inv parsers request v jobs c one p free i = elim (Bool-cases (is_missing v.location)) [
    | inl missing ↦ rw missing i
    | inr there ↦ rw there (elim (Bool-cases (not (validation_of parsers v).valid)) [
      | inl invalid ↦ rw invalid (same-Inv decode Answers v _ jobs refl i)
      | inr valid ↦ rw valid (
          same-Inv decode Answers (record v { saving = true }) _ _ refl
            (record {
              present = i.present;
              keyed = i.keyed;
              current = (c v.edit_raw there, i.current);
              single = omega (arith, i.single, one, ap one_if free);
              settles = elim i.settles [
                | inl waits ↦ inl (ground (arith, p))
                | inr rests ↦ inr rests
              ];
            }))
    ])
  ]

  -- A diff is of two versions on the screen, or there is none.
  diff_of-Inv :
      (v : State) (jobs : List Job) (n m : ℕ) (base compare : Option Element)
      → version_at n v.versions ≡ base
      → version_at m v.versions ≡ compare
      → Inv decode Answers (record { view = v; jobs = jobs })
      → Inv decode Answers (record { view = diff_of base compare v; jobs = jobs })
  diff_of-Inv v jobs n m (some base) (some compare) b c i = record {
    present = i.present;
    keyed = i.keyed;
    current = i.current;
    single = i.single;
    settles = elim i.settles [
      | inl waits ↦ inl waits
      | inr (l, inl empty) ↦ inr (l, inl empty)
      | inr (l, inr (loaded, a, e, vs, os, r, d)) ↦
          inr (l, inr (loaded, a, e, vs, os, r, (n, m, b, c)))
    ];
  }
  diff_of-Inv v jobs n m none compare b c i = record {
    present = i.present;
    keyed = i.keyed;
    current = i.current;
    single = i.single;
    settles = elim i.settles [
      | inl waits ↦ inl waits
      | inr (l, inl empty) ↦ inr (l, inl empty)
      | inr (l, inr (loaded, a, e, vs, os, r, d)) ↦ inr (l, inr (loaded, a, e, vs, os, r, tt))
    ];
  }
  diff_of-Inv v jobs n m (some base) none b c i = record {
    present = i.present;
    keyed = i.keyed;
    current = i.current;
    single = i.single;
    settles = elim i.settles [
      | inl waits ↦ inl waits
      | inr (l, inl empty) ↦ inr (l, inl empty)
      | inr (l, inr (loaded, a, e, vs, os, r, d)) ↦ inr (l, inr (loaded, a, e, vs, os, r, tt))
    ];
  }

  diff_at-Inv :
      (v : State) (jobs : List Job) (base compare : Option ℕ)
      → Inv decode Answers (record { view = v; jobs = jobs })
      → Inv decode Answers (record { view = diff_at base compare v; jobs = jobs })
  diff_at-Inv v jobs none compare i = i
  diff_at-Inv v jobs (some n) none i = i
  diff_at-Inv v jobs (some n) (some m) i = elim (Bool-cases (n == 0 || m == 0)) [
    | inl bad ↦ rw bad i
    | inr good ↦ rw good (diff_of-Inv v jobs n m _ _ refl refl i)
  ]

  core_of_render :
      (v : State) (at : Location)
      → v.mounted ≡ true
      → at ≡ v.location
      → core (record v { mounted = true; location = at }) ≡ core v
  core_of_render v at m e = λ i. core (record v { mounted = sym m i; location = e i })

  pub react-Inv :
      (parsers : Parsers) (event : Event) (v : State) (jobs : List Job)
      → enabled event v ≡ true
      → Inv decode Answers (record { view = v; jobs = jobs })
      → Inv decode Answers (after jobs (react parsers decode event v))
  unfolding enabled move handle_submit_new_version handle_publish_directly handle_open_new_version
      close_new_version_dialog validate_later handle_load_diff
  react-Inv parsers renews v jobs h i =
      effect-Inv v (record v { mounted = false }) jobs refl refl refl
        (λ e. core_of_render v v.location i.present refl) i
  react-Inv parsers (moves at) v jobs h i =
      effect-Inv v (record v { mounted = false; location = at }) jobs refl refl refl
        (core_of_render v at i.present) i
  react-Inv parsers submits v jobs h i =
      begun-Inv parsers submit_job v jobs (λ raw there. there) refl refl (ground arith) i
  react-Inv parsers confirms v jobs h i =
      begun-Inv parsers (λ at raw. put_job at raw (latest_of (metadata_of v.element))) v jobs
        (λ raw there. there) refl refl (ground arith) i
  react-Inv parsers opens_new_version v jobs h i = same-Inv decode Answers v _ jobs (ground arith) i
  react-Inv parsers closes_new_version v jobs h i =
      same-Inv decode Answers v _ jobs (ground arith) i
  react-Inv parsers validates v jobs h i = same-Inv decode Answers v _ jobs (ground arith) i
  react-Inv parsers shows_diff v jobs h i =
      diff_at-Inv v jobs (parsers.number_of (trim v.diff_base))
        (parsers.number_of (trim v.diff_compare)) i
  react-Inv parsers opens_confirm v jobs h i = same-Inv decode Answers v _ jobs refl i
  react-Inv parsers closes_confirm v jobs h i = same-Inv decode Answers v _ jobs refl i
  react-Inv parsers closes_preview v jobs h i = same-Inv decode Answers v _ jobs refl i
  react-Inv parsers (types_raw text) v jobs h i = same-Inv decode Answers v _ jobs refl i
  react-Inv parsers (picks_base version) v jobs h i = same-Inv decode Answers v _ jobs refl i
  react-Inv parsers (picks_compare version) v jobs h i = same-Inv decode Answers v _ jobs refl i
  react-Inv parsers (picks_tab tab) v jobs h i = same-Inv decode Answers v _ jobs refl i
  react-Inv parsers (previews version) v jobs h i = same-Inv decode Answers v _ jobs refl i

  pub start-Inv : (parsers : Parsers) (at : Location) → Inv decode Answers (start parsers decode at)
  unfolding load_effect
  start-Inv parsers at =
      load-Inv decode Answers (record (initial at) { mounted = true; load_key = some at }) false []
        refl refl tt (omega arith)
