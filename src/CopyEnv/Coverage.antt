-- ===== src/CopyEnv/Coverage.antt =====
-- The workers copy every item exactly once, at most four at a time.
use cassem.Base.{
  ◌+◌, min, ◌≡◌, sym, ap, ◌∙◌, true, List, [], ◌∷◌, ◌++◌, String, arith, length, length-append,
}
use cassem.Base.Pick.{Pick, count, count-append, count-Pick, length-Pick}
use cassem.Domain.{Element}
use cassem.CopyEnv.Selection.{EmptyElementStrategy, CopyResult, get_element_key}
use cassem.CopyEnv.Pool.{
  Pool, worker_count, run_workers, empty_pool, copy_settled, Running, started, copied,
}
use cassem.CopyEnv.Workers.{
  IsExact, keys, result_keys, untaken, take_next-exact, take_next-length, take_next_or_none,
  copy_element-key, start_workers-IsStarted, count-result_keys, count_of_length,
}

run_workers-IsExact : (items : List Element) → IsExact items (run_workers items)
unfolding run_workers
run_workers-IsExact items =
    let start = start_workers-IsStarted (min worker_count (length items)) items empty_pool in
    record {
      exact = λ key. rw start.results (omega (arith, start.exact key));
      sized = rw start.results (omega (arith, start.sized));
      bounded = omega (arith, start.taken);
      busy = omega (arith, start.taken, start.sized);
      counted = start.counted ∙ ap length (sym start.results);
      shown = start.shown ∙ sym start.results;
    }

copy_settled-IsExact :
    (items rest : List Element) (item : Element) (result : CopyResult) (p : Pool)
    → Pick item p.in_flight rest
    → result.key ≡ get_element_key item
    → IsExact items p
    → IsExact items (copy_settled true items rest result p)
unfolding copy_settled
copy_settled-IsExact items rest item result p pick key_ e =
    let q : Pool = record {
      cursor = p.cursor;
      results = p.results ++ result ∷ [];
      in_flight = rest;
      completed = p.completed + 1;
      reported = p.reported ++ result ∷ [];
    } in
    record {
      exact = λ key. omega (
        arith,
        e.exact key,
        count-result_keys key p.results result,
        ap (λ k. count key (k ∷ [])) key_,
        count-Pick get_element_key key pick,
        count-append key (get_element_key item ∷ []) (keys rest),
        take_next-exact items q key,
      );
      sized = omega (
        arith,
        e.sized,
        length-append p.results (result ∷ []),
        length-Pick pick,
        take_next-length items q,
      );
      bounded = omega (arith, e.bounded, length-Pick pick, take_next_or_none items q);
      busy = omega (
        arith,
        e.busy,
        e.bounded,
        length-Pick pick,
        take_next_or_none items q,
        take_next-length items q,
      );
      counted = omega (arith, e.counted, length-append p.results (result ∷ []));
      shown = ap (λ results. results ++ result ∷ []) e.shown;
    }

-- While the dialog stays open, and whatever the order in which the copies end and the answers of the
-- server: at each moment every key stands among the results, the copies under way and the untaken
-- items together as often as among the items; at most four copies are under way, and fewer only when
-- no item is left; and the dialog shows the results that there are.
pub Running-IsExact :
    (strategy : EmptyElementStrategy) (items : List Element) {p : Pool}
    → Running strategy items p
    → IsExact items p
Running-IsExact strategy items started = run_workers-IsExact items
Running-IsExact strategy items (copied {item} {rest} detail creation r pick) =
    copy_settled-IsExact items rest item _ _ pick (copy_element-key strategy item detail creation)
      (Running-IsExact strategy items r)

-- So when the last worker returns (no copy is under way), there is a result for each item, each key
-- has as many results as it has items, and the dialog counts them all.
pub Running-complete :
    (strategy : EmptyElementStrategy) (items : List Element) (p : Pool)
    → Running strategy items p
    → p.in_flight ≡ []
    → ((key : String) → count key (result_keys p.results) ≡ count key (keys items))
      × (length p.results ≡ length items)
      × (p.completed ≡ length items)
      × (p.reported ≡ p.results)
Running-complete strategy items p r idle =
    let e = Running-IsExact strategy items r in
    let none_left : length p.in_flight ≡ 0 = ap length idle in
    let no_item : length (untaken items p) ≡ 0 = omega (arith, e.busy) in
    (
      λ key. omega (
        arith,
        e.exact key,
        ap (λ es. count key (keys es)) idle,
        count_of_length key (untaken items p) no_item,
      ),
      omega (arith, e.sized),
      omega (arith, e.sized, e.counted),
      e.shown,
    )
