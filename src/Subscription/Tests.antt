-- ===== src/Subscription/Tests.antt =====
-- A subscription to one tag, run.
use gologix.Base.{ℕ, ◌≡◌, refl, List, [], ◌∷◌, ◌++◌, true, none, some, ◌==◌, arith}
use gologix.Base.Int.{pos, negsuc}
use gologix.Base.Result.{ok, eof}
use gologix.Text.{codes}
use gologix.Subscription.{
  TagSubscriptionConfig, TagSubscription, polling, errs_closed, values_closed, Event, tick,
  take_value, request_stop, return_loop, close_errs, value, failure, subscribe_tag,
  new_subscription, or_default, on_tick, step, run,
}
use gologix.Subscription.Changes.{changes, reads, HasRoom, received-changes}
use gologix.Subscription.Several.{
  TagMultiSubscriptionConfig, BatchResult, batch_values, batch_failure, on_batches,
  new_multi_subscription,
}
use gologix.Subscription.PerTag.{only}
use gologix.Subscription.Batches.{all_reads, only-on_batches}
use gologix.Subscription.Ending.{to_the_end, stop-ends, full-drops}

abbrev config : TagSubscriptionConfig
config = record {
  tag = codes "Speed";
  poll_interval = negsuc 0;
  emit_initial = true;
  value_buffer = pos 2;
  error_buffer = pos 0;
}

abbrev events : List (Event ℕ)
events =
    tick (value 5)
    ∷ tick (failure eof)
    ∷ take_value
    ∷ tick (value 5)
    ∷ tick (value 7)
    ∷ request_stop
    ∷ return_loop
    ∷ close_errs
    ∷ take_value
    ∷ []

abbrev at_end : TagSubscription ℕ
at_end = record (new_subscription config) {
  errs = eof ∷ [];
  stop_requested = true;
  phase = errs_closed;
  prev = some 7;
  received = 5 ∷ 7 ∷ [];
}

starts : subscribe_tag {A = ℕ} (λ s. s) (ok tt) config ≡ ok (new_subscription config)
unfolding subscribe_tag
starts = refl

runs : run ◌==◌ events (new_subscription config) ≡ some at_end
unfolding run step on_tick new_subscription or_default
runs = refl

roomy : HasRoom ◌==◌ events (new_subscription config)
unfolding HasRoom step on_tick new_subscription or_default
roomy = omega arith

received-changes_example :
    at_end.received ++ at_end.values ≡ changes ◌==◌ true none (reads ◌==◌ events)
unfolding new_subscription
received-changes_example =
    received-changes ◌==◌ (λ s. s) (ok tt) config (new_subscription config) at_end events starts
      roomy runs

stop-ends_example :
    (last : TagSubscription ℕ) × (run ◌==◌
        (to_the_end ◌==◌ polling ++ (take_value ∷ take_value ∷ []))
        (record (new_subscription config) { values = 1 ∷ 2 ∷ [] })
      ≡ some last)
    × (last.phase ≡ values_closed)
    × (last.values ≡ [])
    × (last.received ≡ 1 ∷ 2 ∷ [])
unfolding new_subscription
stop-ends_example = stop-ends ◌==◌ (record (new_subscription config) { values = 1 ∷ 2 ∷ [] })

-- Two values wait, and the capacity is two.
abbrev full : TagSubscription ℕ
full = record (new_subscription config) { values = 1 ∷ 2 ∷ []; prev = some 2 }

full-drops_example :
    run ◌==◌ (tick (value 3) ∷ take_value ∷ take_value ∷ tick (value 3) ∷ []) full
    ≡ some (record full { prev = some 3; values = []; received = 1 ∷ 2 ∷ [] })
unfolding new_subscription or_default
full-drops_example = full-drops ◌==◌ full 2 3 1 refl refl refl refl (omega arith)

abbrev multi_config : TagMultiSubscriptionConfig
multi_config = record {
  tags = codes "b" ∷ codes "a" ∷ [];
  poll_interval = pos 0;
  batch_size = pos 1;
  batches_per_tick = pos 0;
  emit_initial = true;
  value_buffer = pos 4;
  error_buffer = pos 0;
}

abbrev results : List (BatchResult ℕ)
results =
    batch_values ((codes "a", 1) ∷ [])
    ∷ batch_values ((codes "b", 2) ∷ [])
    ∷ batch_failure eof
    ∷ batch_values ((codes "b", 3) ∷ [])
    ∷ []

only-on_batches_example :
    only
      (codes "b")
      (on_batches ◌==◌ results
        (new_multi_subscription (codes "a" ∷ codes "b" ∷ []) multi_config)).values
    ≡ changes ◌==◌ true none (only (codes "b") (all_reads ◌==◌ results))
unfolding all_reads or_default
only-on_batches_example =
    only-on_batches ◌==◌ (codes "a" ∷ codes "b" ∷ []) multi_config results (codes "b") (omega arith)
