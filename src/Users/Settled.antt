-- ===== src/Users/Settled.antt =====
-- The end of a call keeps the page of users locked while a change is under way.
use cassem.Base.{
  ℕ, ◌+◌, ◌≡◌, refl, sym, ◌∙◌, inl, inr, Bool, true, false, ◌&&◌, List, [], ◌∷◌, String, arith, All,
  ◌==◌, Bool-cases, subst,
}
use cassem.Base.Pick.{Pick, All-Pick}
use cassem.Effects.{Reply, resolved, rejected, label, get_error_message}
use cassem.Users.State.{User, UserAccessBinding, State, Job, users_job, domains_job, access_job}
use cassem.Users.Handlers.{users_settled, domains_settled, account_of, list_users, load_users}
use cassem.Users.Access.{access_settled}
use cassem.Users.Exclusive.{
  Exclusive, is_submission, is_access, tally, tally-Pick, bit, Concerns, keeps-Exclusive,
}

-- What is left when a call has ended.
pub left :
    (v : State) {job : Job} {jobs rest : List Job}
    → Pick job jobs rest
    → Exclusive v jobs
    → (tally is_submission (job ∷ rest) ≡ bit v.submitting)
      × (tally is_access (job ∷ rest) ≡ bit v.access_loading)
      × Concerns (account_of v.access_target) job
      × All (Concerns (account_of v.access_target)) rest
left v p e = (
  sym (tally-Pick is_submission p) ∙ e.locked,
  sym (tally-Pick is_access p) ∙ e.listing,
  (All-Pick (Concerns (account_of v.access_target)) p e.own).0,
  (All-Pick (Concerns (account_of v.access_target)) p e.own).1,
)

-- A change has failed, or a listing that is awaited has ended: the page is unlocked.
pub unlocked-Exclusive :
    (v s : State) {job : Job} {jobs rest : List Job}
    → Pick job jobs rest
    → is_submission job ≡ true
    → is_access job ≡ false
    → s.submitting ≡ false
    → (s.access_loading ≡ v.access_loading)
      × (s.access_target ≡ v.access_target)
      × (s.mounted ≡ v.mounted)
      × (s.load_started ≡ v.load_started)
    → Exclusive v jobs
    → Exclusive s rest
unlocked-Exclusive v s {job} {jobs} {rest} p h k free (b, c, d, l) e =
    let (busy, listed, _, others) = left v p e in
    record {
      locked = ground arith;
      listing = ground arith;
      own = subst (λ target. All (Concerns (account_of target)) rest) (sym c) others;
      shown = ground (arith, e.shown);
      present = d ∙ e.present;
      started = l ∙ e.started;
    }

-- A change goes on with another call.
pub continued-Exclusive :
    (v s : State) {job more : Job} {jobs rest : List Job}
    → Pick job jobs rest
    → is_submission job ≡ true
    → is_access job ≡ false
    → is_submission more ≡ true
    → is_access more ≡ false
    → Concerns (account_of v.access_target) more
    → (s.submitting ≡ v.submitting)
      × (s.access_loading ≡ v.access_loading)
      × (s.access_target ≡ v.access_target)
      × (s.mounted ≡ v.mounted)
      × (s.load_started ≡ v.load_started)
    → Exclusive v jobs
    → Exclusive s (more ∷ rest)
continued-Exclusive v s {job} {more} {jobs} {rest} p h k h' k' about (a, b, c, d, l) e =
    let (busy, listed, _, others) = left v p e in
    record {
      locked = ground arith;
      listing = ground arith;
      own =
          subst (λ target. All (Concerns (account_of target)) (more ∷ rest)) (sym c)
            (about, others);
      shown = ground (arith, e.shown);
      present = d ∙ e.present;
      started = l ∙ e.started;
    }

-- A call that is neither a change nor a listing of bindings has ended.
dropped-Exclusive :
    (v : State) {job : Job} {jobs rest : List Job}
    → Pick job jobs rest
    → is_submission job ≡ false
    → is_access job ≡ false
    → Exclusive v jobs
    → Exclusive v rest
dropped-Exclusive v p h k e =
    let (busy, listed, _, others) = left v p e in
    record {
      locked = ground arith;
      listing = ground arith;
      own = others;
      shown = e.shown;
      present = e.present;
      started = e.started;
    }

list_users-same :
    (id : ℕ) (reply : Reply (List User)) (v : State)
    → let s = list_users id reply v in
      (s.submitting ≡ v.submitting)
      × (s.access_loading ≡ v.access_loading)
      × (s.access_target ≡ v.access_target)
      × (s.mounted ≡ v.mounted)
      × (s.load_started ≡ v.load_started)
unfolding list_users
list_users-same id (resolved users) v = elim (Bool-cases (v.mounted && id == v.request_seq)) [
  | inl counts ↦ rw counts (refl, refl, refl, refl, refl)
  | inr stale ↦ rw stale (refl, refl, refl, refl, refl)
]
list_users-same id (rejected reason) v = elim (Bool-cases (v.mounted && id == v.request_seq)) [
  | inl counts ↦ rw counts (refl, refl, refl, refl, refl)
  | inr stale ↦ rw stale (refl, refl, refl, refl, refl)
]

pub users_settled-Exclusive :
    (id : ℕ) (awaited : Bool) (reply : Reply (List User)) (v : State) {jobs rest : List Job}
    → Pick (users_job id awaited) jobs rest
    → Exclusive v jobs
    → Exclusive (users_settled id awaited reply v) rest
unfolding users_settled
users_settled-Exclusive id true reply v p e =
    let (_, b, c, d, l) = list_users-same id reply v in
    unlocked-Exclusive v (record (list_users id reply v) { submitting = false }) p refl refl refl
      (b, c, d, l) e
users_settled-Exclusive id false reply v {rest} p e =
    let (a, b, c, d, l) = list_users-same id reply v in
    keeps-Exclusive v (list_users id reply v) rest a b c d l (dropped-Exclusive v p refl refl e)

pub domains_settled-Exclusive :
    (reply : Reply (List String)) (v : State) {jobs rest : List Job}
    → Pick domains_job jobs rest
    → Exclusive v jobs
    → Exclusive (domains_settled reply v) rest
unfolding domains_settled
domains_settled-Exclusive (resolved domains) v {rest} p e = rw e.present (
    keeps-Exclusive v (record v { domain_options = domains; mounted = true }) rest refl refl refl
      (sym e.present) refl (dropped-Exclusive v p refl refl e))
domains_settled-Exclusive (rejected reason) v {rest} p e = rw e.present (
    keeps-Exclusive v
      (record v {
        error = get_error_message reason (label "management.users.loadDomainsFailed");
        mounted = true;
      })
      rest refl refl refl (sym e.present) refl (dropped-Exclusive v p refl refl e))

pub access_settled-Exclusive :
    (account : String) (reply : Reply (List UserAccessBinding)) (v : State) {jobs rest : List Job}
    → Pick (access_job account) jobs rest
    → Exclusive v jobs
    → Exclusive (access_settled reply v) rest
unfolding access_settled
access_settled-Exclusive account (resolved bindings) v p e =
    let (busy, listed, _, others) = left v p e in
    rw e.present (record {
      locked = ground arith;
      listing = ground arith;
      own = others;
      shown = ground arith;
      present = refl;
      started = e.started;
    })
access_settled-Exclusive account (rejected reason) v p e =
    let (busy, listed, _, others) = left v p e in
    rw e.present (record {
      locked = ground arith;
      listing = ground arith;
      own = others;
      shown = ground arith;
      present = refl;
      started = e.started;
    })

-- Adding, disabling and resetting go on with a listing that they await.
pub changed-Exclusive :
    (v s : State) {job : Job} {jobs rest : List Job}
    → Pick job jobs rest
    → is_submission job ≡ true
    → is_access job ≡ false
    → (s.submitting ≡ v.submitting)
      × (s.access_loading ≡ v.access_loading)
      × (s.access_target ≡ v.access_target)
      × (s.mounted ≡ v.mounted)
      × (s.load_started ≡ v.load_started)
    → Exclusive v jobs
    → Exclusive (load_users true s []).state (users_job (s.request_seq + 1) true ∷ rest)
changed-Exclusive v s p h k same e =
    continued-Exclusive v (load_users true s []).state p h k refl refl tt same e
