-- ===== src/CopyEnv/Workers.antt =====
-- How the workers of web/src/features/envs/CopyEnvDialog.tsx take the items: the invariant of the pool,
-- and its start.
use cassem.Base.{
  ℕ, zero, suc, ◌+◌, ◌≤◌, ◌≡◌, refl, ap, ◌∙◌, ◌⊎◌, inl, inr, List, [], ◌∷◌, ◌++◌, String, arith,
  map, drop, get_elem?, length, drop-get_elem?, drop-get_elem?-none, drop-suc-none, Option-cases,
}
use cassem.Base.Pick.{count, count-append}
use cassem.Domain.{Element}
use cassem.Effects.{Reply, resolved, rejected, api_error, other_error}
use cassem.CopyEnv.Selection.{EmptyElementStrategy, CopyResult, get_element_key}
use cassem.CopyEnv.Pool.{Pool, awaiting, worker_count, copy_element, take_next, start_workers}
use mathlib.Core.List.{map-append}

abbrev pub keys : List Element → List String
keys = map get_element_key

abbrev pub result_keys : List CopyResult → List String
result_keys = map (λ result. result.key)

-- The items that no worker has taken.
abbrev pub untaken : List Element → Pool → List Element
untaken items p = drop p.cursor items

-- What a worker takes leaves the untaken items.
pub take_next-exact :
    (items : List Element) (p : Pool) (key : String)
    → count key (keys (take_next items p).in_flight)
        + count key (keys (untaken items (take_next items p)))
      ≡ count key (keys p.in_flight) + count key (keys (untaken items p))
unfolding take_next
take_next-exact items p key = elim (Option-cases (get_elem? items p.cursor)) [
  | inl out ↦
      rw (out, awaiting, drop-suc-none p.cursor items out, drop-get_elem?-none p.cursor items out)
        refl
  | inr (item, found) ↦
      rw (found, awaiting, drop-get_elem? p.cursor items item found) (ground arith)
]

pub take_next-length :
    (items : List Element) (p : Pool)
    → length (take_next items p).in_flight + length (untaken items (take_next items p))
      ≡ length p.in_flight + length (untaken items p)
unfolding take_next
take_next-length items p = elim (Option-cases (get_elem? items p.cursor)) [
  | inl out ↦
      rw (out, awaiting, drop-suc-none p.cursor items out, drop-get_elem?-none p.cursor items out)
        refl
  | inr (item, found) ↦ rw (found, awaiting, drop-get_elem? p.cursor items item found) (omega arith)
]

-- A worker takes an item unless there is none.
pub take_next_or_none :
    (items : List Element) (p : Pool)
    → (length (take_next items p).in_flight ≡ suc (length p.in_flight))
      ⊎ ((length (take_next items p).in_flight ≡ length p.in_flight)
          × (length (untaken items (take_next items p)) ≡ 0))
unfolding take_next
take_next_or_none items p = elim (Option-cases (get_elem? items p.cursor)) [
  | inl out ↦ inr (rw (out, awaiting) refl, rw (drop-suc-none p.cursor items out) refl)
  | inr (item, found) ↦ inl (rw (found, awaiting) refl)
]

pub copy_element-key :
    (strategy : EmptyElementStrategy) (item : Element) (detail : Reply Element)
    (creation : Reply (Unit {0}))
    → (copy_element strategy item detail creation).key ≡ get_element_key item
unfolding copy_element
copy_element-key strategy item (rejected (api_error m)) creation = refl
copy_element-key strategy item (rejected other_error) creation = refl
copy_element-key strategy item (resolved detail) (resolved u) = ground arith
copy_element-key strategy item (resolved detail) (rejected (api_error m)) = ground arith
copy_element-key strategy item (resolved detail) (rejected other_error) = ground arith

pub record IsExact (items : List Element) (p : Pool) : Type 0 where
  -- Each key stands among the results, the copies under way and the untaken items as often as
  -- among the items.
  pub exact :
      (key : String)
      → count key (result_keys p.results)
          + count key (keys p.in_flight)
          + count key (keys (untaken items p))
        ≡ count key (keys items)
  pub sized : length p.results + length p.in_flight + length (untaken items p) ≡ length items
  -- At most four copies are under way, and fewer only when no item is left to take.
  pub bounded : length p.in_flight ≤ worker_count
  pub busy : (length p.in_flight ≡ worker_count) ⊎ (length (untaken items p) ≡ 0)
  -- The dialog shows the results that there are.
  pub counted : p.completed ≡ length p.results
  pub shown : p.reported ≡ p.results

-- What the start of `n` workers leaves as it was, and how many items they take.
pub record IsStarted (items : List Element) (n : ℕ) (p q : Pool) : Type 0 where
  pub exact :
      (key : String)
      → count key (keys q.in_flight) + count key (keys (untaken items q))
        ≡ count key (keys p.in_flight) + count key (keys (untaken items p))
  pub sized :
      length q.in_flight + length (untaken items q) ≡ length p.in_flight + length (untaken items p)
  pub taken :
      (length q.in_flight ≡ length p.in_flight + n)
      ⊎ ((length q.in_flight ≤ length p.in_flight + n) × (length (untaken items q) ≡ 0))
  pub results : q.results ≡ p.results
  pub counted : q.completed ≡ p.completed
  pub shown : q.reported ≡ p.reported

pub start_workers-IsStarted :
    (n : ℕ) (items : List Element) (p : Pool) → IsStarted items n p (start_workers n items p)
unfolding start_workers
start_workers-IsStarted zero items p = record {
  exact = λ key. refl;
  sized = refl;
  taken = inl (omega arith);
  results = refl;
  counted = refl;
  shown = refl;
}
start_workers-IsStarted (suc n) items p =
    let rest = start_workers-IsStarted n items (take_next items p) in
    record {
      exact = λ key. rest.exact key ∙ take_next-exact items p key;
      sized = rest.sized ∙ take_next-length items p;
      taken =
          omega
            (arith, rest.taken, rest.sized, take_next-length items p, take_next_or_none items p);
      results = rest.results;
      counted = rest.counted;
      shown = rest.shown;
    }

pub count-result_keys :
    (key : String) (results : List CopyResult) (result : CopyResult)
    → count key (result_keys (results ++ result ∷ []))
      ≡ count key (result_keys results) + count key (result.key ∷ [])
count-result_keys key results result =
    ap (count key) (map-append (λ (r : CopyResult). r.key) results (result ∷ []))
    ∙ count-append key (result_keys results) (result.key ∷ [])

pub count_of_length :
    (key : String) (items : List Element) → length items ≡ 0 → count key (keys items) ≡ 0
count_of_length key [] h = refl
count_of_length key (item ∷ items) h = absurd (omega arith)
