-- ===== src/Tests/Sweep.antt =====
-- A sweep of the sample, at a time when the threads under `delete` and `keep_latest` have expired.
use langgraph_runtime_inmem.Prelude.{
  ◌≡◌, ◌≤◌, refl, true, some, none, List, [], ◌∷◌, ◌++◌, not, ok, ◌≢◌, inl, All, length, keep,
  nat_eq,
}
use langgraph_runtime_inmem.Prelude.Int.{pos, pos_part}
use langgraph_runtime_inmem.Dict.{get, put, remove}
use langgraph_runtime_inmem.Ops.State.{
  delete, keep_latest, find_thread, pop_thread, has_active_runs,
}
use langgraph_runtime_inmem.Ops.Ttl.{effective_thread_ttl, policy_of_state}
use langgraph_runtime_inmem.Ops.Threads.{new_thread}
use langgraph_runtime_inmem.Ops.Sweep.{
  Expired, select, sweep_ttl, sweep_selected, scan, candidate, expired_entry, sort_entries,
  insert_entry, is_kept, batches, process_batch, process, mark_swept,
}
use langgraph_runtime_inmem.Ops.Sweep.Selection.{IsEligible, select-IsEligible}
use langgraph_runtime_inmem.Ops.Sweep.Order.{IsSorted, select_earliest}
use langgraph_runtime_inmem.Ops.Sweep.Distinct.{Apart, select-Apart}
use langgraph_runtime_inmem.Ops.Sweep.Steps.{Untouched}
use langgraph_runtime_inmem.Ops.Sweep.Safety.{sweep_ttl_spares}
use langgraph_runtime_inmem.Ops.Sweep.Batches.{erase, batch_size_irrelevant}
use langgraph_runtime_inmem.Ops.Sweep.Effect.{Settled, sweep_ttl_settles}
use langgraph_runtime_inmem.Ops.Sweep.Repeat.{swept_not_selected}
use langgraph_runtime_inmem.Ops.Threads
use langgraph_runtime_inmem.Filters.{is_allowed, check_filter_match}
use langgraph_runtime_inmem.Tests.Threads.{recorder, override, sample, sample-UniqueIds}

abbrev gone : Expired
gone = record {
  expires_at = 15;
  thread_id = 1;
  policy = record { strategy = delete; ttl_minutes = 5 };
  state = override delete 5;
  updated_at = 10;
}

abbrev kept : Expired
kept = record {
  expires_at = 25;
  thread_id = 2;
  policy = record { strategy = keep_latest; ttl_minutes = 5 };
  state = override keep_latest 5;
  updated_at = 20;
}

selected : select none none 100 sample ≡ ok (gone ∷ kept ∷ [])
unfolding select scan candidate expired_entry sort_entries insert_entry has_active_runs
    effective_thread_ttl policy_of_state get
selected = refl

limited_selected : select none (some (pos 1)) 100 sample ≡ ok (gone ∷ [])
unfolding select scan candidate expired_entry sort_entries insert_entry has_active_runs
    effective_thread_ttl policy_of_state get
limited_selected = refl

select-IsEligible_example : All (IsEligible none 100 sample sample.threads) (gone ∷ kept ∷ [])
select-IsEligible_example =
    select-IsEligible none none 100 sample (gone ∷ kept ∷ []) sample-UniqueIds selected

select_earliest_example :
    (rest : List Expired) × (select none none 100 sample ≡ ok ((gone ∷ []) ++ rest))
    × IsSorted ((gone ∷ []) ++ rest)
    × (length (gone ∷ []) ≤ pos_part (pos 1))
select_earliest_example = select_earliest none (pos 1) 100 sample (gone ∷ []) limited_selected

select-Apart_example : Apart (gone ∷ kept ∷ [])
select-Apart_example =
    select-Apart none none 100 sample (gone ∷ kept ∷ []) sample-UniqueIds selected

third_is_active : has_active_runs 3 sample.runs ≡ true
unfolding has_active_runs
third_is_active = refl

sweep_ttl_spares_example : Untouched 3 sample (sweep_ttl recorder none none none 2 100 sample).1
sweep_ttl_spares_example =
    sweep_ttl_spares recorder none none none 2 100 3 sample sample-UniqueIds (inl third_is_active)

batch_size_irrelevant_example :
    erase (sweep_selected recorder 1 sample (gone ∷ kept ∷ []))
    ≡ erase (sweep_selected recorder 0 sample (gone ∷ kept ∷ []))
batch_size_irrelevant_example =
    batch_size_irrelevant recorder 1 0 sample (gone ∷ kept ∷ []) (λ id s. refl)

sweep_ttl_settles_example :
    ((sweep_ttl recorder none none none 1 100 sample).0
      ≡ ok (length (gone ∷ kept ∷ []), length (keep (λ x. not (is_kept x)) (gone ∷ kept ∷ []))))
    × All (Settled sample (sweep_ttl recorder none none none 1 100 sample).1) (gone ∷ kept ∷ [])
sweep_ttl_settles_example =
    sweep_ttl_settles recorder none none none 1 100 sample (gone ∷ kept ∷ []) (λ id s. refl)
      sample-UniqueIds refl selected

nothing_selected : select none none 200 (sweep_ttl recorder none none none 1 100 sample).1 ≡ ok []
unfolding select scan candidate expired_entry sort_entries has_active_runs effective_thread_ttl
    policy_of_state get put remove sweep_ttl sweep_selected batches process_batch process mark_swept
    Threads.delete is_allowed check_filter_match pop_thread find_thread insert_entry keep
nothing_selected = refl

swept_not_selected_example :
    All (λ x. All (λ (y : Expired). y.thread_id ≢ x.thread_id) []) (gone ∷ kept ∷ [])
swept_not_selected_example =
    swept_not_selected recorder none none none none 1 100 200 sample (gone ∷ kept ∷ []) []
      (λ id s. refl) sample-UniqueIds refl selected nothing_selected
