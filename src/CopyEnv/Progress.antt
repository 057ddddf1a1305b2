-- ===== src/CopyEnv/Progress.antt =====
-- The execution step of web/src/features/envs/CopyEnvDialog.tsx: `startCopy`, cut at its awaits.
use cassem.Base.{
  Bool, true, false, Option, none, some, List, String, any, if◌then◌else◌, length, keep,
}
use cassem.Domain.{Element}
use cassem.Effects.{Reply, resolved, rejected}
use cassem.CopyEnv.Selection.{
  State, CopyResult, CopyResultStatus, success, skipped, failure, pending, doing, done, failed,
  execute, create_initial_progress, selected_elements, can_start, is_active, message_or_empty,
}
use cassem.CopyEnv.Pool.{Pool}

abbrev pub has_status : CopyResultStatus → CopyResult → Bool
has_status success result = elim result.status [ success ↦ true | _ ↦ false ]
has_status skipped result = elim result.status [ skipped ↦ true | _ ↦ false ]
has_status failure result = elim result.status [ failure ↦ true | _ ↦ false ]

-- `startCopy` up to `createEnv`, with the items that it will copy.
unfoldable pub start_copy : String → List String → State → State × Option (List Element)
start_copy app_id envs s =
    if can_start app_id envs s
    then (
      record s {
        step = execute;
        copying = true;
        copy_error = none;
        progress = record (create_initial_progress (length (selected_elements s))) {
          create_env = doing;
        };
      },
      some (selected_elements s),
    )
    else (s, none)

-- From `createEnv` to the workers; `true` if they run.
unfoldable pub create_env_settled : Reply (Unit {0}) → State → State × Bool
create_env_settled (resolved _) s =
    if is_active s
    then (
      record s { progress = record s.progress { create_env = done; copy_elements = doing } },
      true,
    )
    else (s, false)
create_env_settled (rejected reason) s =
    if is_active s
    then (
      record s {
        copy_error = some (message_or_empty reason);
        progress = record s.progress {
          create_env = failed;
          copy_elements = pending;
          complete = pending;
        };
        copying = false;
      },
      false,
    )
    else (s, false)

-- The workers' part of the progress, as the dialog shows it.
abbrev pub show_pool : Pool → State → State
show_pool p s = record s {
  progress = record s.progress { completed = p.completed; results = p.reported };
}

abbrev pub result_status_of : List CopyResult → CopyResultStatus
result_status_of results =
    if any (has_status failure) results
    then failure
    else if any (has_status skipped) results
    then skipped
    else success

-- From the workers to `onFinished`; `true` if that is called.
unfoldable pub workers_settled : List CopyResult → State → State × Bool
workers_settled results s =
    if is_active s
    then (
      record s {
        result_status = result_status_of results;
        progress = record s.progress { copy_elements = done; complete = done };
      },
      true,
    )
    else (s, false)

-- An error of `onFinished` is dropped.
unfoldable pub finished_settled : Reply (Unit {0}) → State → State
finished_settled reply s = if s.mounted then record s { copying = false } else s

-- The tabs of the result list: one list for each status.
abbrev pub results_with : CopyResultStatus → State → List CopyResult
results_with status s = keep (has_status status) s.progress.results

-- The whole copy of a dialog that stays open: the environment is created, the workers run to their
-- end, and the page behind the dialog is refreshed.
unfoldable pub run_copy : Pool → Reply (Unit {0}) → State → State
unfolding create_env_settled workers_settled finished_settled
run_copy p refreshed s =
    let (created, _) = create_env_settled (resolved tt) s in
    let (settled, _) = workers_settled p.results (show_pool p created) in
    finished_settled refreshed settled
