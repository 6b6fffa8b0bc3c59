-- ===== src/Subscription.antt =====
-- tag_subscribe.go: the subscription to one tag, its poll loop, its channels and Stop.
pub mod Changes
pub mod Ending
pub mod Several
pub mod PerTag
pub mod Batches
mod Tests
use gologix.Base.{
  ℕ, ◌+◌, List, [], ◌∷◌, ◌++◌, Bool, true, false, Option, none, some, length, ltb, ◌==◌,
  if◌then◌else◌,
}
use gologix.Base.Int.{ℤ, pos, negsuc}
use gologix.Base.Result.{Error, Result, ok, err, wrong_type, ◌>>=◌}
use gologix.Wire.{Bytes}

-- TagSubscriptionConfig; the poll interval is in nanoseconds.
pub record TagSubscriptionConfig : Type 0 where
  pub tag : Bytes
  pub poll_interval : ℤ
  pub emit_initial : Bool
  pub value_buffer : ℤ
  pub error_buffer : ℤ

-- A setting that is 0 or less is replaced by its default.
unfoldable pub or_default : ℤ → ℕ → ℕ
or_default (pos n) d = if n == 0 then d else n
or_default (negsuc n) d = d

-- Where the goroutine of the loop is: it polls, or it has returned and run the first, the first two or
-- all three of its deferred closes.
pub data Phase : Type 0 where
  polling : Phase
  done_closed : Phase
  errs_closed : Phase
  values_closed : Phase

-- A subscription: the two channels as what is in them, with their capacities, `stopCh`, and the
-- variables hasPrev and prev of the loop. `received` is what the consumer has taken from Values.
pub record TagSubscription (A : Type 0) : Type 0 where
  pub tag : Bytes
  pub poll_interval : ℕ
  pub emit_initial : Bool
  pub values : List A
  pub value_cap : ℕ
  pub errs : List Error
  pub err_cap : ℕ
  pub stop_requested : Bool
  pub phase : Phase
  pub prev : Option A
  pub received : List A

-- The subscription that SubscribeTag returns.
unfoldable pub new_subscription : {A : Type 0} → TagSubscriptionConfig → TagSubscription A
unfolding or_default
new_subscription cfg = record {
  tag = cfg.tag;
  poll_interval = or_default cfg.poll_interval 200000000;
  emit_initial = cfg.emit_initial;
  values = [];
  value_cap = or_default cfg.value_buffer 32;
  errs = [];
  err_cap = or_default cfg.error_buffer 8;
  stop_requested = false;
  phase = polling;
  prev = none;
  received = [];
}

-- SubscribeTag. `connected` is what checkConnection returns, and `trim_space` is strings.TrimSpace.
unfoldable pub subscribe_tag :
    {A : Type 0}
    → (Bytes → Bytes)
    → Result (Unit {0})
    → TagSubscriptionConfig
    → Result (TagSubscription A)
unfolding new_subscription
subscribe_tag trim_space connected cfg = do
  done ← connected
  if length (trim_space cfg.tag) == 0 then err wrong_type else ok (new_subscription cfg)

-- A send in a select with a default: a full channel drops the value.
abbrev pub offer : {A : Type 0} → A → ℕ → List A → List A
offer x cap xs = if ltb (length xs) cap then xs ++ (x ∷ []) else xs

-- What client.Read gives.
pub data ReadResult (A : Type 0) : Type 0 where
  value : A → ReadResult A
  failure : Error → ReadResult A

-- What happens to a subscription: a tick with what is read, the consumer takes a value or an error,
-- Stop closes `stopCh` where it is open, the loop sees that and returns, and the deferred closes run, of
-- `doneCh`, Errors and Values in this order.
pub data Event (A : Type 0) : Type 0 where
  tick : ReadResult A → Event A
  take_value : Event A
  take_error : Event A
  request_stop : Event A
  return_loop : Event A
  close_errs : Event A
  close_values : Event A

module _ {A : Type 0} (deep_equal : A → A → Bool) where
  -- The loop's round at a tick, by what is read. `deep_equal` is reflect.DeepEqual.
  unfoldable pub on_tick : ReadResult A → TagSubscription A → TagSubscription A
  on_tick (failure e) sub = record sub { errs = offer e sub.err_cap sub.errs }
  on_tick (value cur) sub = elim sub.prev [
    | none ↦ record sub {
      prev = some cur;
      values = if sub.emit_initial then offer cur sub.value_cap sub.values else sub.values;
    }
    | some old ↦
        (if deep_equal cur old
          then sub
          else record sub { prev = some cur; values = offer cur sub.value_cap sub.values })
  ]

  -- The subscription after an event, and none where the event cannot happen.
  unfoldable pub step : Event A → TagSubscription A → Option (TagSubscription A)
  unfolding on_tick
  step (tick r) sub = elim sub.phase [
    | polling ↦ some (on_tick r sub)
    | done_closed ↦ none
    | errs_closed ↦ none
    | values_closed ↦ none
  ]
  step take_value sub = elim sub.values [
    | [] ↦ none
    | x ∷ xs ↦ some (record sub { values = xs; received = sub.received ++ (x ∷ []) })
  ]
  step take_error sub = elim sub.errs [ [] ↦ none | e ∷ es ↦ some (record sub { errs = es }) ]
  step request_stop sub = some (record sub { stop_requested = true })
  step return_loop sub = elim sub.phase [
    | polling ↦ if sub.stop_requested then some (record sub { phase = done_closed }) else none
    | done_closed ↦ none
    | errs_closed ↦ none
    | values_closed ↦ none
  ]
  step close_errs sub = elim sub.phase [
    | polling ↦ none
    | done_closed ↦ some (record sub { phase = errs_closed })
    | errs_closed ↦ none
    | values_closed ↦ none
  ]
  step close_values sub = elim sub.phase [
    | polling ↦ none
    | done_closed ↦ none
    | errs_closed ↦ some (record sub { phase = values_closed })
    | values_closed ↦ none
  ]

  abbrev after :
      Option (TagSubscription A)
      → (TagSubscription A → Option (TagSubscription A))
      → Option (TagSubscription A)
  after none f = none
  after (some sub) f = f sub

  -- A sequence of events.
  unfoldable pub run : List (Event A) → TagSubscription A → Option (TagSubscription A)
  unfolding step
  run [] sub = some sub
  run (e ∷ es) sub = after (step e sub) (run es)
