-- ===== src/Instances/Reactions.antt =====
-- The handlers of the page keep what it shows in step with what was asked for last.
use cassem.Base.{◌≡◌, refl, inl, inr, true, ◌&&◌, List, String, arith, Bool-cases, trim}
use cassem.Instances.State.{Instance, Query, everything}
use cassem.Instances.Handlers.{
  is_given, restart, emptied, mount, handle_filter, handle_refresh_all, handle_load_detail,
  type_app, choose_app, type_env, choose_env, type_key, load_all,
}
use cassem.Instances.World.{
  World, after, Event, renews, filters, refreshes, opens_detail, types_app, chooses_app, types_env,
  chooses_env, types_key, react, enabled,
}
use cassem.Instances.Shown.{Inv, Current-later, ask-Inv, apply_filter-Inv}

module _ (contents : Query → List Instance) (details : String → String) where
  pub react-Inv :
      (app env key : String) (w : World) (event : Event)
      → enabled app env key event w.view ≡ true
      → Inv contents details w
      → Inv contents details (after w (react app env key event w.view))
  unfolding mount handle_filter handle_refresh_all handle_load_detail type_app choose_app type_env
      choose_env type_key load_all
  react-Inv app env key w renews free i = rw i.started (record {
    started = refl;
    current = i.current;
    shows = i.shows;
    shows_detail = i.shows_detail;
  })
  react-Inv app env key w filters free i =
      apply_filter-Inv contents details w (restart w.view) (trim w.view.app) (trim w.view.env)
        (trim w.view.key) refl refl refl i.started i.current
  react-Inv app env key w refreshes free i =
      ask-Inv contents details w (emptied w.view) everything refl refl refl i.started i.current
  react-Inv app env key w (opens_detail instance_id) free i = record {
    started = i.started;
    current = (
      (omega arith, inr refl),
      Current-later w.view.request_seq w.view.detail_request_seq _ _ w.asked w.asked w.asked_detail
          instance_id w.jobs (inr (refl, refl)) (inl (omega arith)) i.current,
    );
    shows = i.shows;
    shows_detail = inl refl;
  }
  react-Inv app env key w (types_app value) free i = record {
    started = i.started;
    current = i.current;
    shows = i.shows;
    shows_detail = i.shows_detail;
  }
  react-Inv app env key w (types_env value) free i = record {
    started = i.started;
    current = i.current;
    shows = i.shows;
    shows_detail = i.shows_detail;
  }
  react-Inv app env key w (types_key value) free i = record {
    started = i.started;
    current = i.current;
    shows = i.shows;
    shows_detail = i.shows_detail;
  }
  react-Inv app env key w (chooses_app value) free i = elim (Bool-cases (is_given value)) [
    | inl given ↦ rw given (record {
      started = i.started;
      current = (tt, i.current);
      shows = i.shows;
      shows_detail = i.shows_detail;
    })
    | inr not_given ↦ rw not_given (record {
      started = i.started;
      current = i.current;
      shows = i.shows;
      shows_detail = i.shows_detail;
    })
  ]
  react-Inv app env key w (chooses_env value) free i =
      elim (Bool-cases (is_given w.view.app && is_given value)) [
        | inl given ↦ rw given (record {
          started = i.started;
          current = (tt, i.current);
          shows = i.shows;
          shows_detail = i.shows_detail;
        })
        | inr not_given ↦ rw not_given (record {
          started = i.started;
          current = i.current;
          shows = i.shows;
          shows_detail = i.shows_detail;
        })
      ]
