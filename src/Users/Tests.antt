-- ===== src/Users/Tests.antt =====
-- Runs of the page of users, and its theorems at concrete inputs.
use cassem.Base.{◌≡◌, refl, ◌⊎◌, true, false, String, none, List, [], ◌∷◌}
use cassem.Base.Pick.{first}
use cassem.Effects.{resolved}
use cassem.Users.Scopes.{
  app_env, app_options, env_options, build_domain, is_listed, build_domain-listed,
}
use cassem.Users.State.{User, users_job, domains_job, assign_job, is_superadmin_user}
use cassem.Users.Handlers.{mount, close_access_dialog}
use cassem.Users.Access.{
  handle_open_access, access_settled, handle_add_binding, assign_settled, refresh_settled,
}
use cassem.Users.World.{
  World, finish, settled, react, start, Reach, here, next, happens, access_arrives, assign_ends,
  opens_access, assigns,
}
use cassem.Users.Exclusive.{Exclusive}
use cassem.Users.Locked.{Reach-Exclusive}

page : Unit {0}
unfolding mount handle_open_access access_settled handle_add_binding assign_settled refresh_settled
    close_access_dialog is_superadmin_user
page = tt

abbrev domains : List String
domains = "cluster" ∷ "shop/*" ∷ "shop/prod" ∷ "blog/*" ∷ "shop/test" ∷ []

menu_of_apps : app_options domains ≡ "shop" ∷ "blog" ∷ []
unfolding app_options
menu_of_apps = refl

menu_of_envs : env_options "shop" domains ≡ "prod" ∷ "test" ∷ []
unfolding env_options
menu_of_envs = refl

build_domain-listed_example :
    (build_domain app_env "shop" "test" ≡ "cluster")
    ⊎ (is_listed (build_domain app_env "shop" "test") domains ≡ true)
unfolding env_options
build_domain-listed_example = build_domain-listed domains app_env "shop" "test" refl

abbrev ann : User
ann = record {
  account = "ann";
  nickname = none;
  status = none;
  roles = [];
  binding_count = none;
  access_summary = [];
}

abbrev opened : World
opened = finish start.jobs (react (opens_access ann) start.view)

abbrev listed : World
listed = settled (domains_job ∷ users_job 1 false ∷ []) (access_settled (resolved []) opened.view)

abbrev assigning : World
assigning = finish listed.jobs (react assigns listed.view)

assigns_cluster :
    assigning.jobs ≡ assign_job "ann" "admin" "cluster" ∷ domains_job ∷ users_job 1 false ∷ []
unfolding page
assigns_cluster = refl

abbrev assigned : World
assigned = finish listed.jobs (assign_settled "ann" (resolved tt) assigning.view)

Reach-assigned : Reach assigned
unfolding page
Reach-assigned =
    next
      (next
        (next (next here (happens (opens_access ann) refl))
          (access_arrives "ann" (resolved []) first))
        (happens assigns refl))
      (assign_ends "ann" "admin" "cluster" (resolved tt) first)

Reach-Exclusive_example : Exclusive assigned.view assigned.jobs
Reach-Exclusive_example = Reach-Exclusive Reach-assigned
