-- ===== src/Subscription/Several.antt =====
-- tag_subscribe.go: the subscription to several tags, which reads them in batches, one after the other.
use gologix.Base.{
  ℕ, zero, suc, ◌+◌, ◌%◌, List, [], ◌∷◌, Bool, false, ◌||◌, none, some, length, take, drop, ◌==◌,
  if◌then◌else◌,
}
use gologix.Base.Int.{ℤ}
use gologix.Base.Result.{Error, Result, ok, err, wrong_type, ◌>>=◌}
use gologix.Wire.{Bytes}
use gologix.TagMap.{lookup, insert}
use gologix.Subscription.{or_default, offer}

-- TagMultiSubscriptionConfig, with the keys of Tags in the order of Go's map.
pub record TagMultiSubscriptionConfig : Type 0 where
  pub tags : List Bytes
  pub poll_interval : ℤ
  pub batch_size : ℤ
  pub batches_per_tick : ℤ
  pub emit_initial : Bool
  pub value_buffer : ℤ
  pub error_buffer : ℤ

-- The loop that cuts the keys into batches, on the number of keys as fuel.
unfoldable pub cut : ℕ → ℕ → List Bytes → List (List Bytes)
cut zero size keys = []
cut (suc f) size [] = []
cut (suc f) size (k ∷ keys) = take size (k ∷ keys) ∷ cut f size (drop size (k ∷ keys))

unfoldable pub any_blank : (Bytes → Bytes) → List Bytes → Bool
any_blank trim_space [] = false
any_blank trim_space (k ∷ keys) = length (trim_space k) == 0 || any_blank trim_space keys

-- A subscription to several tags and the variables of its loop: the value last seen of each tag that has
-- been seen, and the batch that is next. Values holds updates, without their times.
pub record TagMultiSubscription (A : Type 0) : Type 0 where
  pub batches : List (List Bytes)
  pub poll_interval : ℕ
  pub batches_per_tick : ℕ
  pub emit_initial : Bool
  pub values : List (Bytes × A)
  pub value_cap : ℕ
  pub errs : List Error
  pub err_cap : ℕ
  pub prev : List (Bytes × A)
  pub batch_index : ℕ

unfoldable pub new_multi_subscription :
    {A : Type 0} → List Bytes → TagMultiSubscriptionConfig → TagMultiSubscription A
unfolding or_default cut
new_multi_subscription keys cfg = record {
  batches = cut (length keys) (or_default cfg.batch_size 200) keys;
  poll_interval = or_default cfg.poll_interval 100000000;
  batches_per_tick = or_default cfg.batches_per_tick 1;
  emit_initial = cfg.emit_initial;
  values = [];
  value_cap = or_default cfg.value_buffer 256;
  errs = [];
  err_cap = or_default cfg.error_buffer 32;
  prev = [];
  batch_index = 0;
}

-- SubscribeTags. `connected` is what checkConnection returns, and `sort_strings` is sort.Strings.
unfoldable pub subscribe_tags :
    {A : Type 0}
    → (Bytes → Bytes)
    → (List Bytes → List Bytes)
    → Result (Unit {0})
    → TagMultiSubscriptionConfig
    → Result (TagMultiSubscription A)
unfolding any_blank new_multi_subscription
subscribe_tags trim_space sort_strings connected cfg = do
  done ← connected
  if length cfg.tags == 0 || any_blank trim_space cfg.tags
      then err wrong_type
      else ok (new_multi_subscription (sort_strings cfg.tags) cfg)

-- What client.ReadMap gives for a batch: the tags with their values, in the order of Go's map.
pub data BatchResult (A : Type 0) : Type 0 where
  batch_values : List (Bytes × A) → BatchResult A
  batch_failure : Error → BatchResult A

module _ {A : Type 0} (deep_equal : A → A → Bool) where
  -- The round of the inner loop for one tag.
  unfoldable pub on_tag : Bytes → A → TagMultiSubscription A → TagMultiSubscription A
  on_tag tag cur sub = elim (lookup tag sub.prev) [
    | none ↦ record sub {
      prev = insert tag cur sub.prev;
      values = if sub.emit_initial then offer (tag, cur) sub.value_cap sub.values else sub.values;
    }
    | some old ↦
        (if deep_equal cur old then sub else record sub {
          prev = insert tag cur sub.prev;
          values = offer (tag, cur) sub.value_cap sub.values;
        })
  ]

  unfoldable pub on_tags : List (Bytes × A) → TagMultiSubscription A → TagMultiSubscription A
  unfolding on_tag
  on_tags [] sub = sub
  on_tags ((tag, cur) ∷ rest) sub = on_tags rest (on_tag tag cur sub)

  -- A batch is read: the next one is next.
  unfoldable pub on_batch : BatchResult A → TagMultiSubscription A → TagMultiSubscription A
  unfolding on_tags
  on_batch (batch_values reads) sub =
      on_tags reads (record sub { batch_index = (sub.batch_index + 1) % length sub.batches })
  on_batch (batch_failure e) sub = record sub {
    batch_index = (sub.batch_index + 1) % length sub.batches;
    errs = offer e sub.err_cap sub.errs;
  }

  -- The batches of any number of ticks, by what their reads give.
  unfoldable pub on_batches : List (BatchResult A) → TagMultiSubscription A → TagMultiSubscription A
  unfolding on_batch
  on_batches [] sub = sub
  on_batches (r ∷ rs) sub = on_batches rs (on_batch r sub)
