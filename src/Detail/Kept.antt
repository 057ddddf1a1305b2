-- ===== src/Detail/Kept.antt =====
-- What the invariant of the page of one element does not read, and how a loading keeps it.
use cassem.Base.{
  ◌+◌, ◌≡◌, refl, sym, subst, inl, inr, Bool, true, false, Option, some, none, List, String, arith,
  All, Bool-cases, eq_iff, eq_refl,
}
use cassem.Content.Validation.{valid_result}
use cassem.Detail.State.{Location, is_missing, is_at, State, Job, no_error}
use cassem.Detail.Loading.{Loaded, load_page, missing_location, end_awaited}
use cassem.Detail.World.{after}
use cassem.Detail.Shown.{Past, one_if, changes, Inv, Past-Current}

pub is_at_self : (at : Location) → is_at at at ≡ true
is_at_self at = rw (eq_refl at.app_id, eq_refl at.env, eq_refl at.key)

pub is_at→≡ : (at other : Location) → is_at at other ≡ true → at ≡ other
is_at→≡ at other h =
    let app : at.app_id ≡ other.app_id = ground (arith, eq_iff at.app_id other.app_id) in
    let env : at.env ≡ other.env = ground (arith, eq_iff at.env other.env) in
    let key : at.key ≡ other.key = ground (arith, eq_iff at.key other.key) in
    λ i. record { app_id = app i; env = env i; key = key i }

-- What the invariant does not read: the tabs, the dialogs and the error.
abbrev pub core : State → State
core v = record v {
  retention_policy = none;
  diff_loaded = false;
  error = no_error;
  tab = 0;
  edit_raw = "";
  edit_validation = valid_result;
  new_version_open = false;
  publish_direct_confirm_open = false;
  preview_version = none;
  diff_base = "";
  diff_compare = "";
}

module _ (decode : String → Option String) (Answers : Location → Loaded → Type 0) where
  core-Inv :
      (v : State) (jobs : List Job)
      → Inv decode Answers (record { view = v; jobs = jobs })
      → Inv decode Answers (record { view = core v; jobs = jobs })
  core-Inv v jobs i = record {
    present = i.present;
    keyed = i.keyed;
    current = i.current;
    single = i.single;
    settles = i.settles;
  }

  Inv-core :
      (v : State) (jobs : List Job)
      → Inv decode Answers (record { view = core v; jobs = jobs })
      → Inv decode Answers (record { view = v; jobs = jobs })
  Inv-core v jobs i = record {
    present = i.present;
    keyed = i.keyed;
    current = i.current;
    single = i.single;
    settles = i.settles;
  }

  pub same-Inv :
      (v u : State) (jobs : List Job)
      → core u ≡ core v
      → Inv decode Answers (record { view = v; jobs = jobs })
      → Inv decode Answers (record { view = u; jobs = jobs })
  same-Inv v u jobs e i = Inv-core u jobs (
      subst (λ c. Inv decode Answers (record { view = c; jobs = jobs })) (sym e)
        (core-Inv v jobs i))

  missing-Inv :
      (s : State) (awaited : Bool) (jobs : List Job)
      → s.mounted ≡ true
      → s.load_key ≡ some s.location
      → All (Past s.request_seq) jobs
      → changes jobs + one_if awaited ≡ one_if s.saving
      → Inv decode Answers (record { view = end_awaited awaited (missing_location s); jobs = jobs })
  missing-Inv s true jobs m k past single = record {
    present = ground arith;
    keyed = ground arith;
    current =
        Past-Current s.request_seq (end_awaited true (missing_location s)) jobs (ground arith) past;
    single = ground arith;
    settles = inr (ground arith, inl (ground arith));
  }
  missing-Inv s false jobs m k past single = record {
    present = ground arith;
    keyed = ground arith;
    current =
        Past-Current s.request_seq (end_awaited false (missing_location s)) jobs (ground arith)
          past;
    single = ground arith;
    settles = inr (ground arith, inl (ground arith));
  }

  pub load-Inv :
      (s : State) (awaited : Bool) (jobs : List Job)
      → s.mounted ≡ true
      → s.load_key ≡ some s.location
      → All (Past (s.request_seq + 1)) jobs
      → changes jobs + one_if awaited ≡ one_if s.saving
      → Inv decode Answers (after jobs (load_page s.location awaited s))
  load-Inv s awaited jobs m k past single =
      let u : State = record s { request_seq = s.request_seq + 1 } in
      elim (Bool-cases (is_missing s.location)) [
        | inl missing ↦ rw missing (missing-Inv u awaited jobs m k past single)
        | inr there ↦ rw there (record {
          present = m;
          keyed = k;
          current =
              ((omega arith, inr refl), Past-Current (s.request_seq + 1) u jobs (omega arith) past);
          single = omega arith;
          settles = inl (ground arith);
        })
      ]
