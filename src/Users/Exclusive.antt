-- ===== src/Users/Exclusive.antt =====
-- The page of users sends one change at a time, and its access dialog hears only of its own account.
use cassem.Base.{
  ℕ, suc, ◌≡◌, refl, ap, sym, ◌∙◌, Bool, true, false, List, [], ◌∷◌, ◌++◌, String, arith, All,
  if◌then◌else◌, subst,
}
use cassem.Base.Pick.{Pick, first, later}
use cassem.Users.State.{
  State, Job, users_job, domains_job, add_job, disable_job, reset_job, access_job, assign_job,
  revoke_job, refresh_job,
}
use cassem.Users.Handlers.{account_of, submit}
use cassem.Users.World.{is_none}

-- A change of the accounts, or what a handler does behind it.
abbrev pub is_submission : Job → Bool
is_submission (users_job id awaited) = awaited
is_submission domains_job = false
is_submission (access_job account) = false
is_submission _ = true

abbrev pub is_access : Job → Bool
is_access (access_job account) = true
is_access _ = false

abbrev pub tally : (Job → Bool) → List Job → ℕ
tally p [] = 0
tally p (job ∷ jobs) = if p job then suc (tally p jobs) else tally p jobs

abbrev pub bit : Bool → ℕ
bit true = 1
bit false = 0

-- A call about bindings is about this account.
abbrev pub Concerns : String → Job → Type 0
Concerns own (access_job account) = account ≡ own
Concerns own (assign_job account role domain) = account ≡ own
Concerns own (revoke_job account binding) = account ≡ own
Concerns own (refresh_job account) = account ≡ own
Concerns own _ = Unit

pub record Exclusive (v : State) (jobs : List Job) : Type 0 where
  pub locked : tally is_submission jobs ≡ bit v.submitting
  pub listing : tally is_access jobs ≡ bit v.access_loading
  pub own : All (Concerns (account_of v.access_target)) jobs
  pub shown : (v.access_loading ≡ true) → is_none v.access_target ≡ false
  pub present : v.mounted ≡ true
  pub started : v.load_started ≡ true

pub tally-Pick :
    (p : Job → Bool) {job : Job} {jobs rest : List Job}
    → Pick job jobs rest
    → tally p jobs ≡ tally p (job ∷ rest)
tally-Pick p first = refl
tally-Pick p (later {x} {other} {xs} {rest} pick) = ground (arith, tally-Pick p pick)

-- With nothing under way, the dialog may turn to any account.
pub Concerns-none :
    (own other : String) (jobs : List Job)
    → tally is_submission jobs ≡ 0
    → tally is_access jobs ≡ 0
    → All (Concerns own) jobs
    → All (Concerns other) jobs
Concerns-none own other [] h k a = tt
Concerns-none own other (users_job id awaited ∷ jobs) h k a =
    (tt, Concerns-none own other jobs (ground arith) k a.1)
Concerns-none own other (domains_job ∷ jobs) h k a = (tt, Concerns-none own other jobs h k a.1)
Concerns-none own other (add_job b c d ∷ jobs) h k a = ground arith
Concerns-none own other (disable_job b ∷ jobs) h k a = ground arith
Concerns-none own other (reset_job b c ∷ jobs) h k a = ground arith
Concerns-none own other (access_job b ∷ jobs) h k a = ground arith
Concerns-none own other (assign_job b c d ∷ jobs) h k a = ground arith
Concerns-none own other (revoke_job b c ∷ jobs) h k a = ground arith
Concerns-none own other (refresh_job b ∷ jobs) h k a = ground arith

-- An event that changes none of the four.
pub keeps-Exclusive :
    (v s : State) (jobs : List Job)
    → s.submitting ≡ v.submitting
    → s.access_loading ≡ v.access_loading
    → s.access_target ≡ v.access_target
    → s.mounted ≡ v.mounted
    → s.load_started ≡ v.load_started
    → Exclusive v jobs
    → Exclusive s jobs
keeps-Exclusive v s jobs a b c d l e = record {
  locked = e.locked ∙ ap bit (sym a);
  listing = e.listing ∙ ap bit (sym b);
  own = subst (λ target. All (Concerns (account_of target)) jobs) (sym c) e.own;
  shown = ground (arith, e.shown);
  present = d ∙ e.present;
  started = l ∙ e.started;
}

-- A change is sent where none is under way.
pub submit-Exclusive :
    (v : State) (job : Job) (jobs : List Job)
    → v.submitting ≡ false
    → is_submission job ≡ true
    → is_access job ≡ false
    → Concerns (account_of v.access_target) job
    → Exclusive v jobs
    → Exclusive (submit v job).state ((submit v job).jobs ++ jobs)
submit-Exclusive v job jobs free s k c e = record {
  locked = ground (arith, e.locked);
  listing = ground (arith, e.listing);
  own = (c, e.own);
  shown = e.shown;
  present = e.present;
  started = e.started;
}

pub unless-Exclusive :
    (busy : Bool) (v s : State) (jobs : List Job)
    → Exclusive v jobs
    → (busy ≡ false → Exclusive s jobs)
    → Exclusive (if busy then v else s) jobs
unless-Exclusive true v s jobs e h = e
unless-Exclusive false v s jobs e h = h refl
