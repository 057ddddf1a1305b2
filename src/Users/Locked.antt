-- ===== src/Users/Locked.antt =====
-- The page of users sends one change at a time, and its access dialog hears only of its own account.
use cassem.Base.{◌+◌, refl, sym, true, false, none, List, [], ◌∷◌, arith}
use cassem.Effects.{resolved, rejected, Effect}
use cassem.Users.State.{State, Job, users_job, empty_form}
use cassem.Users.Handlers.{mount, add_settled, disable_settled, reset_settled, load_users}
use cassem.Users.Access.{assign_settled, revoke_settled, refresh_settled}
use cassem.Users.World.{
  World, Step, happens, users_arrive, domains_arrive, add_ends, disable_ends, reset_ends,
  access_arrives, assign_ends, revoke_ends, refresh_arrives, Reach, here, next,
}
use cassem.Users.Exclusive.{Exclusive}
use cassem.Users.Reactions.{react-Exclusive}
use cassem.Users.Settled.{
  left, unlocked-Exclusive, continued-Exclusive, users_settled-Exclusive, domains_settled-Exclusive,
  access_settled-Exclusive, changed-Exclusive,
}

-- Behind a change the users are listed once more.
relisted-Exclusive :
    (s : State) (effects : List Effect) (rest : List Job)
    → Exclusive s rest
    → Exclusive (load_users false s effects).state (users_job (s.request_seq + 1) false ∷ rest)
relisted-Exclusive s effects rest e = record {
  locked = e.locked;
  listing = e.listing;
  own = (tt, e.own);
  shown = e.shown;
  present = e.present;
  started = e.started;
}

Step-Exclusive : {w w' : World} → Step w w' → Exclusive w.view w.jobs → Exclusive w'.view w'.jobs
unfolding add_settled disable_settled reset_settled assign_settled revoke_settled refresh_settled
Step-Exclusive {w} (happens event free) e = react-Exclusive event w.view w.jobs free e
Step-Exclusive {w} (users_arrive id awaited reply p) e =
    users_settled-Exclusive id awaited reply w.view p e
Step-Exclusive {w} (domains_arrive reply p) e = domains_settled-Exclusive reply w.view p e
Step-Exclusive {w} (access_arrives account reply p) e =
    access_settled-Exclusive account reply w.view p e
Step-Exclusive {w} (add_ends a b c (resolved done) p) e =
    changed-Exclusive w.view (record w.view { create_open = false; create_form = empty_form }) p
      refl refl (refl, refl, refl, refl, refl) e
Step-Exclusive {w} (add_ends a b c (rejected reason) p) e =
    unlocked-Exclusive w.view (record w.view { submitting = false }) p refl refl refl
      (refl, refl, refl, refl) e
Step-Exclusive {w} (disable_ends a (resolved done) p) e =
    changed-Exclusive w.view (record w.view { disable_target = none }) p refl refl
      (refl, refl, refl, refl, refl) e
Step-Exclusive {w} (disable_ends a (rejected reason) p) e =
    unlocked-Exclusive w.view (record w.view { submitting = false }) p refl refl refl
      (refl, refl, refl, refl) e
Step-Exclusive {w} (reset_ends a b (resolved done) p) e =
    changed-Exclusive w.view (record w.view { reset_target = none; reset_password = "" }) p refl
      refl (refl, refl, refl, refl, refl) e
Step-Exclusive {w} (reset_ends a b (rejected reason) p) e =
    unlocked-Exclusive w.view (record w.view { submitting = false }) p refl refl refl
      (refl, refl, refl, refl) e
Step-Exclusive {w} (assign_ends account role domain (resolved done) p) e =
    continued-Exclusive w.view w.view p refl refl refl refl (left w.view p e).2
      (refl, refl, refl, refl, refl) e
Step-Exclusive {w} (assign_ends account role domain (rejected reason) p) e = rw e.present (
    unlocked-Exclusive w.view (record w.view { submitting = false; mounted = true }) p refl refl
      refl (refl, refl, sym e.present, refl) e)
Step-Exclusive {w} (revoke_ends account binding (resolved done) p) e =
    continued-Exclusive w.view w.view p refl refl refl refl (left w.view p e).2
      (refl, refl, refl, refl, refl) e
Step-Exclusive {w} (revoke_ends account binding (rejected reason) p) e = rw e.present (
    unlocked-Exclusive w.view (record w.view { submitting = false; mounted = true }) p refl refl
      refl (refl, refl, sym e.present, refl) e)
Step-Exclusive {w} (refresh_arrives account (resolved bindings) {rest} p) e =
    let s : State = record w.view {
      access_bindings = bindings;
      submitting = false;
      mounted = true;
    } in
    rw e.present (
      relisted-Exclusive s [] rest
        (unlocked-Exclusive w.view s p refl refl refl (refl, refl, sym e.present, refl) e))
Step-Exclusive {w} (refresh_arrives account (rejected reason) {rest} p) e =
    let s : State = record w.view { submitting = false; mounted = true } in
    rw e.present (
      relisted-Exclusive s [] rest
        (unlocked-Exclusive w.view s p refl refl refl (refl, refl, sym e.present, refl) e))

-- Whatever the user and the server do while the page is mounted: of the changes to accounts and the
-- requests that a handler makes behind one, at most one is under way, and the page is locked exactly
-- while it is; and a listing or a change of access bindings that is under way is about the account
-- whose dialog is open.
pub Reach-Exclusive : {w : World} → Reach w → Exclusive w.view w.jobs
unfolding mount
Reach-Exclusive here = record {
  locked = refl;
  listing = refl;
  own = (tt, (tt, tt));
  shown = ground arith;
  present = refl;
  started = refl;
}
Reach-Exclusive (next r s) = Step-Exclusive s (Reach-Exclusive r)
