-- ===== src/Instances/Opening.antt =====
-- The first render of the page of instances: the menus are asked for before the instances.
use cassem.Base.{
  ◌≡◌, refl, inl, inr, Bool, true, false, ◌&&◌, none, List, [], String, arith, All, Bool-cases,
  if◌then◌else◌,
}
use cassem.Instances.State.{Instance, State, Query, everything, watchers, Turn}
use cassem.Instances.Handlers.{
  is_given, then_do, unless_empty, load_apps, load_env_candidates, load_key_candidates,
  apply_filter, load_all, ask,
}
use cassem.Instances.World.{fresh}
use cassem.Instances.Shown.{Inv, Current, Current-later}

-- No instances and no detail are asked for yet.
abbrev pub Fresh : Turn → Type 0
Fresh (s, jobs) =
    (s.request_seq ≡ 0)
    × (s.detail_request_seq ≡ 0)
    × (s.loading ≡ true)
    × (s.detail ≡ none)
    × (s.load_started ≡ true)
    × All (Current 0 0 everything "") jobs

pub load_apps-Fresh : (s : State) → Fresh (s, []) → Fresh (load_apps s)
unfolding load_apps
load_apps-Fresh s f = (f.0, f.1, f.2, f.3, f.4, (tt, tt))

pub load_env_candidates-Fresh :
    (given : Bool) (app : String) (t : Turn)
    → Fresh t
    → Fresh (then_do (unless_empty given (load_env_candidates app)) t)
unfolding load_env_candidates
load_env_candidates-Fresh false app t f = f
load_env_candidates-Fresh true app t f = elim (Bool-cases (is_given app)) [
  | inl some_app ↦ rw some_app (f.0, f.1, f.2, f.3, f.4, (tt, f.5))
  | inr no_app ↦ rw no_app f
]

pub load_key_candidates-Fresh :
    (given : Bool) (app env : String) (t : Turn)
    → Fresh t
    → Fresh (then_do (unless_empty given (load_key_candidates app env)) t)
unfolding load_key_candidates
load_key_candidates-Fresh false app env t f = f
load_key_candidates-Fresh true app env t f = elim (Bool-cases (is_given app && is_given env)) [
  | inl some_env ↦ rw some_env (f.0, f.1, f.2, f.3, f.4, (tt, f.5))
  | inr no_env ↦ rw no_env f
]

module _ (contents : Query → List Instance) (details : String → String) where
  ask-first :
      (query : Query) (t : Turn) → Fresh t → Inv contents details (fresh (then_do (ask query) t))
  ask-first query (s, jobs) (e, k, busy, d, on, a) = record {
    started = on;
    current = (
      (omega arith, inr refl),
      Current-later 0 0 _ _ everything query "" "" jobs (inl (omega arith)) (inl (omega arith)) a,
    );
    shows = inl busy;
    shows_detail = inr (inl refl);
  }

  pub opened-Inv :
      (app env key : String) (given : Bool) (t : Turn)
      → Fresh t
      → Inv contents details
          (fresh (then_do (λ u. if given then apply_filter app env key u else load_all u) t))
  unfolding apply_filter load_all
  opened-Inv app env key false t f = ask-first everything t f
  opened-Inv app env key true t f =
      elim (Bool-cases (is_given app && is_given env && is_given key)) [
        | inl all_given ↦ rw all_given (ask-first (watchers app env key) t f)
        | inr missing ↦ rw missing (ask-first everything t f)
      ]
