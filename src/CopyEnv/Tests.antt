-- ===== src/CopyEnv/Tests.antt =====
-- Runs of the copy dialog, and its theorems at concrete inputs.
use cassem.Base.{
  ℕ, ◌≡◌, refl, ◌≢◌, Bool, true, false, none, some, List, [], ◌∷◌, String, arith, if◌then◌else◌,
  keep, ◌+◌, eq_iff,
}
use cassem.Base.Pick.{first}
use cassem.Domain.{nat, Element, absent, name, number}
use cassem.Effects.{resolved, rejected, api_error, other_error}
use cassem.CopyEnv.Elements.{
  ElementsResponse, Server, request_all_elements, is_element_empty, normalize_content_type,
}
use cassem.CopyEnv.Pages.{last, more, request_all_elements-Pages}
use cassem.CopyEnv.Selection.{
  State, initial, skip, failure, create, toggle_element, has, handle_source_env_change,
  load_settled, load_effect, can_start, estimated_copy_count, skipped_estimate, message_or_empty,
  get_element_key,
}
use cassem.CopyEnv.Pool.{Pool, run_workers, copy_element, copy_settled, Running, started, copied}
use cassem.CopyEnv.Coverage.{Running-IsExact}
use cassem.CopyEnv.Workers.{IsExact}
use cassem.CopyEnv.Progress.{start_copy, create_env_settled, run_copy}
use cassem.CopyEnv.Outcome.{
  IsStartable, start_copy-IsStartable, IsFinished, run_copy-IsFinished_of_start,
  estimated_copy_count-add,
}
use cassem.CopyEnv.Loads.{
  World, Reach, here, next, chooses_source, names_target, lists, start_copy-source,
}
use text.Mathlib.Text.{◌==◌ as str_eq}

dialog : Unit {0}
unfolding request_all_elements is_element_empty normalize_content_type toggle_element
    handle_source_env_change load_settled load_effect can_start run_workers copy_element
    copy_settled start_copy create_env_settled run_copy message_or_empty
dialog = tt

abbrev element_of : String → ℕ → Element
element_of key version = record {
  metadata = record {
    key = key;
    latest_version = some (nat 1);
    using_version = some (nat version);
    unpublished_version = none;
    content_type = absent;
  };
  raw = some "e30=";
  version = some (nat version);
  published = true;
}

abbrev db : Element
db = element_of "db.json" 1

abbrev draft : Element
draft = element_of "draft.ini" 0

abbrev page : List Element → Bool → String → ElementsResponse
page elements has_more seek = record {
  elements = elements;
  has_more = has_more;
  next_seek = some seek;
}

abbrev server : Server
server seek =
    resolved (if str_eq seek "" then page (db ∷ []) true "n" else page (draft ∷ []) false "")

request_all_elements-Pages_example :
    request_all_elements server 2 ≡ some (resolved (db ∷ draft ∷ []))
request_all_elements-Pages_example =
    request_all_elements-Pages server 2 2 (resolved (db ∷ draft ∷ []))
      (more (page (db ∷ []) true "n") refl refl (last (page (draft ∷ []) false "") refl refl))
      (omega arith)

known_name : normalize_content_type (name "toml") ≡ number (nat 2)
unfolding dialog
known_name = refl

unknown_name : normalize_content_type (name "yaml") ≡ name "yaml"
unfolding dialog
unknown_name = refl

abbrev items : List Element
items = db ∷ draft ∷ []

-- The second copy ends first.
abbrev half : Pool
half =
    copy_settled true items (db ∷ []) (copy_element skip draft (resolved draft) (resolved tt))
      (run_workers items)

abbrev whole : Pool
whole =
    copy_settled true items [] (copy_element skip db (resolved db) (rejected (api_error "denied")))
      half

Running-half : Running skip items half
unfolding dialog
Running-half = copied (resolved draft) (resolved tt) started first

Running-whole : Running skip items whole
unfolding dialog
Running-whole = copied (resolved db) (rejected (api_error "denied")) Running-half first

Running-IsExact_example : IsExact items half
Running-IsExact_example = Running-IsExact skip items Running-half

abbrev ready : State
ready = record initial {
  source_env = "dev";
  target_env = "test";
  elements = items;
  selected_keys = "db.json" ∷ "draft.ini" ∷ [];
}

abbrev envs : List String
envs = "dev" ∷ "prod" ∷ []

start_copy-IsStartable_example :
    IsStartable "shop" envs ready items
    × ((start_copy "shop" envs ready).0.progress.total ≡ 2)
    × ((start_copy "shop" envs ready).0.progress.completed ≡ 0)
    × (ready.step ≡ create)
unfolding dialog
start_copy-IsStartable_example = start_copy-IsStartable "shop" envs ready items refl

run_copy-IsFinished_of_start_example :
    IsFinished items (run_copy whole (rejected other_error) (start_copy "shop" envs ready).0)
unfolding dialog
run_copy-IsFinished_of_start_example =
    run_copy-IsFinished_of_start "shop" envs ready items whole (rejected other_error) refl refl refl
      Running-whole refl

one_failed : (run_copy whole (resolved tt) (start_copy "shop" envs ready).0).result_status ≡ failure
unfolding dialog
one_failed = refl

estimated_copy_count-add_example : estimated_copy_count ready + skipped_estimate ready ≡ 2
unfolding dialog
estimated_copy_count-add_example = estimated_copy_count-add ready

abbrev contents : String → List Element
contents env = if str_eq env "dev" then items else []

-- The listing of the first source arrives after that of the second, and is dropped.
abbrev chosen : World
chosen = record {
  view = record initial { source_env = "dev"; loading_elements = true; load_seq = 2 };
  requests = (2, "dev") ∷ (1, "prod") ∷ [];
}

abbrev listed : World
listed = record {
  view = record initial {
    source_env = "dev";
    load_seq = 2;
    elements = items;
    selected_keys = "db.json" ∷ "draft.ini" ∷ [];
  };
  requests = [];
}

dev_ne_prod : ◌≢◌ {A = String} "dev" "prod"
dev_ne_prod = ground (arith, eq_iff "dev" "prod")

prod_ne_blank : ◌≢◌ {A = String} "prod" ""
prod_ne_blank = ground (arith, eq_iff "prod" "")

Reach-listed : Reach "shop" contents listed
unfolding dialog
Reach-listed =
    next
      (next
        (next (next here (chooses_source "prod" prod_ne_blank refl))
          (chooses_source "dev" dev_ne_prod refl))
        (lists 2 "dev" first))
      (lists 1 "prod" first)

start_copy-source_example :
    items ≡ keep (λ element. has ("db.json" ∷ "draft.ini" ∷ []) (get_element_key element)) items
unfolding dialog
start_copy-source_example =
    start_copy-source "shop" contents envs
      (record listed { view = record listed.view { target_env = "test" } }) items
      (next Reach-listed (names_target "test")) refl
