-- ===== src/CopyEnv/Loads.antt =====
-- Which elements the copy dialog holds: those of the chosen source, whatever the order in which the
-- listings of this and of earlier sources arrive.
use cassem.Base.{
  ℕ, ◌+◌, ◌≤◌, ◌<◌, ◌≡◌, ◌≢◌, refl, ◌⊎◌, inl, inr, Bool, true, false, ◌&&◌, Option, none, some,
  List, [], ◌∷◌, String, arith, All, Bool-cases, eq_iff, ◌==◌, keep,
}
use cassem.Base.Pick.{Pick, first, later}
use cassem.Domain.{Element}
use cassem.Effects.{Reply, resolved, rejected, Failure}
use cassem.CopyEnv.Selection.{
  State, EmptyElementStrategy, initial, reset, handle_source_env_change, load_effect, apply_load,
  load_settled, toggle_element, toggle_all, is_given, has, get_element_key, is_active,
}
use cassem.CopyEnv.Progress.{start_copy}
use cassem.CopyEnv.Outcome.{start_copy-IsStartable}

-- A listing under way: its number and the environment that it lists.
abbrev pub Request : Type 0
Request = ℕ × String

pub record World : Type 0 where
  pub view : State
  pub requests : List Request

abbrev sent : String → Option ℕ → List Request → List Request
sent env none requests = requests
sent env (some id) requests = (id, env) ∷ requests

-- The effect has run, on the state that its render shows.
abbrev pub with_effect : String → List Request → State → World
with_effect app_id requests s =
    let (t, request) = load_effect app_id s in
    record { view = t; requests = sent s.source_env request requests }

module _ (app_id : String) (contents : String → List Element) where
  -- The user, and the server, which holds `contents`. A choice of the source that is chosen
  -- already is no event.
  pub data Step (w : World) : World → Type 0 where
    chooses_source :
        (value : String)
        → value ≢ w.view.source_env
        → w.view.opened ≡ true
        → Step w (with_effect app_id w.requests (handle_source_env_change app_id value w.view))
    toggles : (key : String) → Step w (record w { view = toggle_element key w.view })
    toggles_all : (checked : Bool) → Step w (record w { view = toggle_all checked w.view })
    names_target : (env : String) → Step w (record w { view = record w.view { target_env = env } })
    picks_strategy :
        (strategy : EmptyElementStrategy)
        → Step w (record w { view = record w.view { empty_strategy = strategy } })
    closes : Step w (record w { view = record w.view { opened = false } })
    has_closed : w.view.opened ≡ false → Step w (record w { view = reset w.view })
    opens :
        w.view.opened ≡ false
        → Step w (with_effect app_id w.requests (record w.view { opened = true }))
    lists :
        (id : ℕ) (env : String) {rest : List Request}
        → Pick (id, env) w.requests rest
        → Step w
            (record { view = load_settled id (resolved (contents env)) w.view; requests = rest })
    fails :
        (id : ℕ) (env : String) (reason : Failure) {rest : List Request}
        → Pick (id, env) w.requests rest
        → Step w (record { view = load_settled id (rejected reason) w.view; requests = rest })

  pub data Reach : World → Type 0 where
    here : Reach (record { view = initial; requests = [] })
    next : {w w' : World} → Reach w → Step w w' → Reach w'

  -- The latest listing is one of the chosen source, unless none is chosen.
  abbrev Current : State → Request → Type 0
  Current v (id, env) =
      (id ≤ v.load_seq) × ((id < v.load_seq) ⊎ ((env ≡ v.source_env) ⊎ (v.source_env ≡ "")))

  -- Once the listing has ended, the elements are those of the chosen source, or none.
  abbrev Holds : State → Type 0
  Holds v =
      (v.loading_elements ≡ true)
      ⊎ ((v.source_env ≡ "") ⊎ ((v.elements ≡ contents v.source_env) ⊎ (v.elements ≡ [])))

  record Inv (w : World) : Type 0 where
    current : All (Current w.view) w.requests
    holds : Holds w.view

  Pick-Current :
      (v : State) {r : Request} {requests rest : List Request}
      → Pick r requests rest
      → All (Current v) requests
      → Current v r × All (Current v) rest
  Pick-Current v first a = a
  Pick-Current v (later p) a = let (c, b) = Pick-Current v p a.1 in (c, (a.0, b))

  -- A later number, another source.
  All-older :
      (v u : State) (requests : List Request)
      → v.load_seq < u.load_seq
      → All (Current v) requests
      → All (Current u) requests
  All-older v u [] h a = tt
  All-older v u ((id, env) ∷ rs) h ((le, _), a) =
      ((omega arith, inl (omega arith)), All-older v u rs h a)

  All-same :
      (v u : State) (requests : List Request)
      → v.load_seq ≡ u.load_seq
      → (v.source_env ≡ u.source_env) ⊎ (u.source_env ≡ "")
      → All (Current v) requests
      → All (Current u) requests
  All-same v u [] h s a = tt
  All-same v u ((id, env) ∷ rs) h s (c, a) = (ground arith, All-same v u rs h s a)

  with_effect-Inv :
      (v s : State) (requests : List Request)
      → is_given app_id ≡ true
      → s.opened ≡ true
      → v.load_seq ≡ s.load_seq
      → All (Current v) requests
      → Holds s
      → Inv (with_effect app_id requests s)
  unfolding load_effect
  with_effect-Inv v s requests given o n a h = elim (Bool-cases (is_given s.source_env)) [
    | inl chosen ↦
        rw (given, o, chosen)
          (record {
            current = (
              (omega arith, inr (inl refl)),
              All-older v (record s { load_seq = s.load_seq + 1 }) requests (omega arith) a,
            );
            holds = h;
          })
    | inr open_choice ↦
        rw (given, o, open_choice)
          (record {
            current = All-same v s requests n (inr (ground (arith, eq_iff s.source_env ""))) a;
            holds = h;
          })
  ]

  load_settled-Inv :
      (w : World) (id : ℕ) (env : String) (reply : Reply (List Element)) (rest : List Request)
      → (reply ≡ resolved (contents env)) ⊎ ((reason : Failure) × (reply ≡ rejected reason))
      → Pick (id, env) w.requests rest
      → Inv w
      → Inv (record { view = load_settled id reply w.view; requests = rest })
  unfolding load_settled
  load_settled-Inv w id env (resolved items) rest answer p i =
      let (c, others) = Pick-Current w.view p i.current in
      elim (Bool-cases (is_active w.view && id == w.view.load_seq)) [
        | inl counts ↦ rw counts (record {
          current =
              All-same w.view (apply_load (resolved items) w.view) rest refl (inl refl) others;
          holds = ground arith;
        })
        | inr stale ↦ rw stale (record { current = others; holds = i.holds })
      ]
  load_settled-Inv w id env (rejected reason) rest answer p i =
      let (c, others) = Pick-Current w.view p i.current in
      elim (Bool-cases (is_active w.view && id == w.view.load_seq)) [
        | inl counts ↦ rw counts (record {
          current =
              All-same w.view (apply_load (rejected reason) w.view) rest refl (inl refl) others;
          holds = ground arith;
        })
        | inr stale ↦ rw stale (record { current = others; holds = i.holds })
      ]

  Step-Inv : {w w' : World} → is_given app_id ≡ true → Step w w' → Inv w → Inv w'
  unfolding handle_source_env_change toggle_element toggle_all reset
  Step-Inv {w} given (chooses_source value ne o) i =
      with_effect-Inv w.view (handle_source_env_change app_id value w.view) w.requests given o refl
        i.current (ground (arith, eq_iff value ""))
  Step-Inv {w} given (toggles key) i = record {
    current = All-same w.view (toggle_element key w.view) w.requests refl (inl refl) i.current;
    holds = i.holds;
  }
  Step-Inv {w} given (toggles_all checked) i = record {
    current = All-same w.view (toggle_all checked w.view) w.requests refl (inl refl) i.current;
    holds = i.holds;
  }
  Step-Inv {w} given (names_target env) i = record {
    current =
        All-same w.view (record w.view { target_env = env }) w.requests refl (inl refl) i.current;
    holds = i.holds;
  }
  Step-Inv {w} given (picks_strategy strategy) i = record {
    current =
        All-same w.view (record w.view { empty_strategy = strategy }) w.requests refl (inl refl)
          i.current;
    holds = i.holds;
  }
  Step-Inv {w} given closes i = record {
    current =
        All-same w.view (record w.view { opened = false }) w.requests refl (inl refl) i.current;
    holds = i.holds;
  }
  Step-Inv {w} given (has_closed o) i = record {
    current = All-same w.view (reset w.view) w.requests refl (inr refl) i.current;
    holds = inr (inl refl);
  }
  Step-Inv {w} given (opens o) i =
      with_effect-Inv w.view (record w.view { opened = true }) w.requests given refl refl i.current
        i.holds
  Step-Inv {w} given (lists id env {rest} p) i =
      load_settled-Inv w id env (resolved (contents env)) rest (inl refl) p i
  Step-Inv {w} given (fails id env reason {rest} p) i =
      load_settled-Inv w id env (rejected reason) rest (inr (reason, refl)) p i

  Reach-Inv : {w : World} → is_given app_id ≡ true → Reach w → Inv w
  Reach-Inv given here = record { current = tt; holds = inr (inl refl) }
  Reach-Inv given (next r s) = Step-Inv given s (Reach-Inv given r)

-- Whatever the order in which sources are chosen, elements are selected, the strategy for empty ones is
-- switched, the dialog is closed and opened again, and listings
-- end or fail: the elements of a copy that can start are the selected ones among those that the server
-- holds for the chosen source.
pub start_copy-source :
    (app_id : String) (contents : String → List Element) (envs : List String) (w : World)
    (items : List Element)
    → Reach app_id contents w
    → (start_copy app_id envs w.view).1 ≡ some items
    → items
      ≡ keep
          (λ element. has w.view.selected_keys (get_element_key element))
          (contents w.view.source_env)
start_copy-source app_id contents envs w items r e =
    let (startable, _, _, _) = start_copy-IsStartable app_id envs w.view items e in
    let i = Reach-Inv app_id contents (ground (arith, eq_iff app_id "", startable.app)) r in
    ground (
      arith, i.holds, startable.loaded, startable.source, startable.selected, startable.some_copied,
    )
