-- ===== src/CopyEnv/Outcome.antt =====
-- What the copy dialog lets start, and how a copy ends.
use cassem.Base.{
  ◌+◌, ◌<◌, ◌≡◌, ◌≢◌, refl, ◌∙◌, ◌↔◌, true, false, not, ◌||◌, some, List, [], ◌∷◌, ◌++◌, String,
  any, if◌then◌else◌, length, keep, arith, eq_iff, length-keep-le, ◌==◌,
}
use cassem.Domain.{Element}
use cassem.Effects.{Reply}
use cassem.CopyEnv.Elements.{is_element_empty}
use cassem.CopyEnv.Selection.{
  State, CopyResult, CopyResultStatus, success, skipped, failure, done, create, selected_elements,
  can_start, has, without, toggle_element, skipped_estimate, estimated_copy_count,
}
use cassem.CopyEnv.Pool.{Pool, Running}
use cassem.Base.Pick.{count}
use cassem.CopyEnv.Coverage.{Running-complete}
use cassem.CopyEnv.Workers.{keys, result_keys}
use cassem.CopyEnv.Progress.{has_status, start_copy, results_with, run_copy}
use text.Mathlib.Text.{◌==◌ as str_eq}

-- What a started copy rests on.
pub record IsStartable (app_id : String) (envs : List String) (s : State) (items : List Element)
    : Type 0 where
  pub app : app_id ≢ ""
  pub source : s.source_env ≢ ""
  pub target : s.target_env ≢ ""
  -- The target is a new environment, and not the source.
  pub fresh : has envs s.target_env ≡ false
  pub other : s.target_env ≢ s.source_env
  pub loaded : s.loading_elements ≡ false
  pub selected : items ≡ selected_elements s
  -- Some selected element is not skipped.
  pub some_copied : skipped_estimate s < length items

-- A copy starts from the creation step only, for a source and a new target with a name, and of the
-- selected elements, of which at least one counts as not skipped; the progress then shows their
-- number, and none done.
pub start_copy-IsStartable :
    (app_id : String) (envs : List String) (s : State) (items : List Element)
    → (start_copy app_id envs s).1 ≡ some items
    → IsStartable app_id envs s items
      × ((start_copy app_id envs s).0.progress.total ≡ length items)
      × ((start_copy app_id envs s).0.progress.completed ≡ 0)
      × (s.step ≡ create)
unfolding start_copy can_start
start_copy-IsStartable app_id envs s items e = (
  record {
    app = ground (arith, eq_iff app_id "");
    source = ground (arith, eq_iff s.source_env "");
    target = ground (arith, eq_iff s.target_env "");
    fresh = ground arith;
    other = ground (arith, eq_iff s.target_env s.source_env);
    loaded = ground arith;
    selected = ground arith;
    some_copied = ground arith;
  },
  ground arith,
  ground arith,
  ground arith,
)

-- The tabs hold each result once.
length-has_status :
    (results : List CopyResult)
    → length (keep (has_status success) results)
        + length (keep (has_status skipped) results)
        + length (keep (has_status failure) results)
      ≡ length results
length-has_status [] = refl
length-has_status (r ∷ rs) = ground (arith, length-has_status rs)

-- Also key by key.
count-has_status :
    (key : String) (results : List CopyResult)
    → count key (result_keys (keep (has_status success) results))
        + count key (result_keys (keep (has_status skipped) results))
        + count key (result_keys (keep (has_status failure) results))
      ≡ count key (result_keys results)
count-has_status key [] = refl
count-has_status key (r ∷ rs) = ground (arith, count-has_status key rs)

any-has_status :
    (status : CopyResultStatus) (results : List CopyResult)
    → (any (has_status status) results ≡ false) ↔ (length (keep (has_status status) results) ≡ 0)
any-has_status status [] = ground arith
any-has_status status (r ∷ rs) = ground (arith, any-has_status status rs)

-- How a copy that ran to its end stands in the dialog.
pub record IsFinished (items : List Element) (s : State) : Type 0 where
  pub created : s.progress.create_env ≡ done
  pub copied : s.progress.copy_elements ≡ done
  pub completed_steps : s.progress.complete ≡ done
  pub all_done : s.progress.completed ≡ s.progress.total
  pub counted : s.progress.total ≡ length items
  -- The tabs together have as many results of a key as there are items of this key, and no others.
  pub each_key :
      (key : String)
      → count key (result_keys (results_with success s))
          + count key (result_keys (results_with skipped s))
          + count key (result_keys (results_with failure s))
        ≡ count key (keys items)
  pub tabs :
      length (results_with success s)
        + length (results_with skipped s)
        + length (results_with failure s)
      ≡ length items
  -- The tab on top is the failed one if any copy failed, or else the skipped one if any was.
  pub on_top : s.result_status ≡ (
      if 0 == length (results_with failure s)
      then (if 0 == length (results_with skipped s) then success else skipped)
      else failure)
  pub idle : s.copying ≡ false

run_copy-IsFinished :
    (items : List Element) (p : Pool) (refreshed : Reply (Unit {0})) (s : State)
    → s.mounted ≡ true
    → s.opened ≡ true
    → s.progress.total ≡ length items
    → ((key : String) → count key (result_keys p.results) ≡ count key (keys items))
    → length p.results ≡ length items
    → p.completed ≡ length items
    → p.reported ≡ p.results
    → IsFinished items (run_copy p refreshed s)
unfolding run_copy
run_copy-IsFinished items p refreshed s m o t k n c r =
    let count = length-has_status p.results in
    let failures = any-has_status failure p.results in
    let skips_ = any-has_status skipped p.results in
    record {
      created = ground arith;
      copied = ground arith;
      completed_steps = ground arith;
      all_done = ground arith;
      counted = ground arith;
      each_key = λ key. ground (arith, count-has_status key p.results, k key);
      tabs = ground arith;
      on_top = ground arith;
      idle = ground arith;
    }

has-append :
    (keys : List String) (key other : String)
    → has (keys ++ key ∷ []) other ≡ (has keys other || str_eq key other)
has-append [] key other = ground arith
has-append (k ∷ ks) key other = ground (arith, has-append ks key other)

has-without :
    (key other : String) (keys : List String)
    → has (without key keys) other ≡ (if str_eq key other then false else has keys other)
has-without key other [] = ground arith
has-without key other (k ∷ ks) =
    ground (arith, has-without key other ks, eq_iff k key, eq_iff k other, eq_iff key other)

-- Selecting an element by its check box changes its own selection and no other.
pub toggle_element-has :
    (key other : String) (s : State)
    → has (toggle_element key s).selected_keys other
      ≡ (if str_eq key other then not (has s.selected_keys key) else has s.selected_keys other)
unfolding toggle_element
toggle_element-has key other s = ground (
  arith,
  has-without key other s.selected_keys,
  has-append s.selected_keys key other,
  eq_iff key other,
)

-- The estimate for the selected elements splits them into copied and skipped ones.
pub estimated_copy_count-add :
    (s : State) → estimated_copy_count s + skipped_estimate s ≡ length (selected_elements s)
estimated_copy_count-add s = ground (arith, length-keep-le is_element_empty (selected_elements s))

start_copy-shown :
    (app_id : String) (envs : List String) (s : State)
    → ((start_copy app_id envs s).0.mounted ≡ s.mounted)
      × ((start_copy app_id envs s).0.opened ≡ s.opened)
unfolding start_copy
start_copy-shown app_id envs s = ground arith

-- A copy that starts in a dialog that stays open, whose environment can be created, and whose workers
-- run to their end in whatever order and with whatever answers, ends with all steps done and counted;
-- the three tabs together have for each key as many results as there are selected elements of this key,
-- and no others; the most serious tab is on top, and the dialog is no longer busy, also if refreshing
-- the page behind it fails.
pub run_copy-IsFinished_of_start :
    (app_id : String) (envs : List String) (s : State) (items : List Element) (p : Pool)
    (refreshed : Reply (Unit {0}))
    → s.mounted ≡ true
    → s.opened ≡ true
    → (start_copy app_id envs s).1 ≡ some items
    → Running s.empty_strategy items p
    → p.in_flight ≡ []
    → IsFinished items (run_copy p refreshed (start_copy app_id envs s).0)
run_copy-IsFinished_of_start app_id envs s items p refreshed m o started running idle =
    let (by_key, counted, completed, reported) =
      Running-complete s.empty_strategy items p running idle in
    let (mounted_same, opened_same) = start_copy-shown app_id envs s in
    run_copy-IsFinished items p refreshed (start_copy app_id envs s).0 (mounted_same ∙ m)
      (opened_same ∙ o) (start_copy-IsStartable app_id envs s items started).1 by_key counted
      completed reported
