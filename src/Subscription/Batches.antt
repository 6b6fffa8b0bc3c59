-- ===== src/Subscription/Batches.antt =====
-- The batches of a subscription to several tags (tag_subscribe.go), and what is sent of one tag of them.
use gologix.Base.{
  ℕ, zero, suc, ◌+◌, ◌%◌, ◌≤◌, ◌<◌, ◌≡◌, refl, sym, ap, ◌∙◌, List, [], ◌∷◌, ◌++◌, Bool, none,
  length, take, drop, append-nil, length-append, length-take, length-drop, take-append-drop, All,
  arith,
}
use gologix.Wire.{Bytes}
use gologix.TagMap.{lookup}
use gologix.Subscription.{offer, or_default}
use gologix.Subscription.Several.{
  TagMultiSubscription, TagMultiSubscriptionConfig, BatchResult, batch_values, batch_failure, cut,
  on_tags, on_batch, on_batches, new_multi_subscription,
}
use gologix.Subscription.Changes.{changes}
use gologix.Subscription.PerTag.{only, only-append, due_of, on_tags-Grows, on_tags-due}

abbrev concat : List (List Bytes) → List Bytes
concat [] = []
concat (b ∷ bs) = b ++ concat bs

-- Every key is in one batch, in the order of the keys, and no batch has more keys than the batch size.
pub concat-cut :
    (n size : ℕ) (keys : List Bytes)
    → length keys ≤ n
    → 0 < size
    → (concat (cut n size keys) ≡ keys) × All (λ batch. length batch ≤ size) (cut n size keys)
unfolding cut
concat-cut zero size [] h s = (refl, tt)
concat-cut zero size (k ∷ keys) h s = absurd (omega arith)
concat-cut (suc n) size [] h s = (refl, tt)
concat-cut (suc n) size (k ∷ keys) h s =
    let rest =
      concat-cut n size (drop size (k ∷ keys)) (omega (arith, length-drop size (k ∷ keys))) s in
    (
      ap (λ ks. take size (k ∷ keys) ++ ks) rest.0 ∙ take-append-drop size (k ∷ keys),
      (omega (arith, length-take size (k ∷ keys)), rest.1),
    )

module _ {A : Type 0} (deep_equal : A → A → Bool) where
  -- The updates that the successful reads of batches give.
  unfoldable pub all_reads : List (BatchResult A) → List (Bytes × A)
  all_reads [] = []
  all_reads (batch_values reads ∷ rs) = reads ++ all_reads rs
  all_reads (batch_failure e ∷ rs) = all_reads rs

  on_batches-due :
      (k : Bytes) (rs : List (BatchResult A)) (sub : TagMultiSubscription A)
      → length sub.values + length (all_reads rs) ≤ sub.value_cap
      → due_of deep_equal k [] (on_batches deep_equal rs sub)
        ≡ due_of deep_equal k (only k (all_reads rs)) sub
  unfolding on_batches on_batch all_reads only
  on_batches-due k [] sub h = refl
  on_batches-due k (batch_failure e ∷ rs) sub h =
      on_batches-due k rs
        (record sub {
          batch_index = (sub.batch_index + 1) % length sub.batches;
          errs = offer e sub.err_cap sub.errs;
        })
        h
  on_batches-due k (batch_values reads ∷ rs) sub h =
      let here : TagMultiSubscription A = record sub {
        batch_index = (sub.batch_index + 1) % length sub.batches;
      } in
      let g = on_tags-Grows deep_equal reads here in
      let total = length-append reads (all_reads rs) in
      on_batches-due k rs (on_tags deep_equal reads here)
        (omega (arith, g.cap_eq, g.values_le, total))
      ∙ on_tags-due deep_equal k reads (only k (all_reads rs)) here (omega (arith, total))
      ∙ ap (λ xs. due_of deep_equal k xs sub) (sym (only-append k reads (all_reads rs)))

  -- Of a subscription to several tags that SubscribeTags has started, where Values has room for as many updates as
  -- there are values in the successful reads of its batches, the updates of each tag in Values are the reads of
  -- that tag that differ from its read before them, in their order, and its first read where it is to be
  -- emitted: what a subscription to this tag alone sends of these reads.
  pub only-on_batches :
      (keys : List Bytes) (cfg : TagMultiSubscriptionConfig) (rs : List (BatchResult A)) (k : Bytes)
      → length (all_reads rs) ≤ or_default cfg.value_buffer 256
      → only k (on_batches deep_equal rs (new_multi_subscription keys cfg)).values
        ≡ changes deep_equal cfg.emit_initial none (only k (all_reads rs))
  unfolding new_multi_subscription changes only lookup
  only-on_batches keys cfg rs k h =
      sym (append-nil (only k (on_batches deep_equal rs (new_multi_subscription keys cfg)).values))
      ∙ on_batches-due k rs (new_multi_subscription keys cfg) (omega (arith, h))
