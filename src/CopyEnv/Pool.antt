-- ===== src/CopyEnv/Pool.antt =====
-- The workers of web/src/features/envs/CopyEnvDialog.tsx: `copyElement` and `runWorkers`. A worker takes
-- the next item and awaits its copy; between two awaits it runs alone, so that the workers are the
-- list of items that they await. Only `results`, `cursor` and the progress are shared, and what a
-- worker does between the two requests of one item changes none of them: a copy is one step.
use cassem.Base.{
  ℕ, zero, suc, ◌+◌, min, Bool, true, ◌&&◌, Option, none, some, List, [], ◌∷◌, ◌++◌, String,
  if◌then◌else◌, get_elem?, length,
}
use cassem.Base.Pick.{Pick}
use cassem.Domain.{Element}
use cassem.Effects.{Reply, resolved, rejected, Failure, api_error, other_error}
use cassem.CopyEnv.Elements.{is_element_empty}
use cassem.CopyEnv.Selection.{
  EmptyElementStrategy, skips, CopyResult, success, skipped, failure, get_element_key,
}

abbrev pub worker_count : ℕ
worker_count = 4

abbrev pub failed_result : String → Failure → CopyResult
failed_result key (api_error message) = record {
  key = key;
  status = failure;
  message = some message;
  message_key = none;
}
failed_result key other_error = record {
  key = key;
  status = failure;
  message = some "";
  message_key = some "management.copy.elementFailed";
}

abbrev created : String → Reply (Unit {0}) → CopyResult
created key (resolved _) = record {
  key = key;
  status = success;
  message = none;
  message_key = none;
}
created key (rejected reason) = failed_result key reason

-- `copyElement`, by the answers of its two requests; the second is sent for an element that is not
-- skipped.
unfoldable pub copy_element :
    EmptyElementStrategy → Element → Reply Element → Reply (Unit {0}) → CopyResult
copy_element strategy source (rejected reason) creation =
    failed_result (get_element_key source) reason
copy_element strategy source (resolved detail) creation =
    if is_element_empty detail && skips strategy
    then record {
      key = get_element_key source;
      status = skipped;
      message = none;
      message_key = some "management.copy.emptySkipped";
    }
    else created (get_element_key source) creation

-- `cursor` and `results` of `runWorkers`, the items that workers await, and the part of the
-- dialog's progress that workers change.
pub record Pool : Type 0 where
  pub cursor : ℕ
  pub results : List CopyResult
  pub in_flight : List Element
  pub completed : ℕ
  pub reported : List CopyResult

abbrev pub awaiting : Option Element → List Element → List Element
awaiting none in_flight = in_flight
awaiting (some item) in_flight = item ∷ in_flight

-- A worker's round up to its `await`; without an item it returns.
unfoldable pub take_next : List Element → Pool → Pool
take_next items p = record p {
  cursor = suc p.cursor;
  in_flight = awaiting (get_elem? items p.cursor) p.in_flight;
}

unfoldable pub start_workers : ℕ → List Element → Pool → Pool
unfolding take_next
start_workers zero items p = p
start_workers (suc n) items p = start_workers n items (take_next items p)

abbrev pub empty_pool : Pool
empty_pool = record { cursor = 0; results = []; in_flight = []; completed = 0; reported = [] }

unfoldable pub run_workers : List Element → Pool
unfolding start_workers
run_workers items = start_workers (min worker_count (length items)) items empty_pool

abbrev pub report : CopyResult → Pool → Pool
report result p = record p { completed = p.completed + 1; reported = p.reported ++ result ∷ [] }

-- A worker's copy has ended, and the others still await `rest`: it keeps the result and goes on,
-- unless the dialog is gone.
unfoldable pub copy_settled : Bool → List Element → List Element → CopyResult → Pool → Pool
unfolding take_next
copy_settled active items rest result p =
    let kept : Pool = record p { results = p.results ++ result ∷ []; in_flight = rest } in
    if active then take_next items (report result kept) else kept

-- The workers while the dialog stays open: any of the copies under way ends, with any answers.
pub data Running (strategy : EmptyElementStrategy) (items : List Element) : Pool → Type 0 where
  started : Running strategy items (run_workers items)
  copied :
      {p : Pool} {item : Element} {rest : List Element} (detail : Reply Element)
      (creation : Reply (Unit {0}))
      → Running strategy items p
      → Pick item p.in_flight rest
      → Running strategy items
          (copy_settled true items rest (copy_element strategy item detail creation) p)
