-- ===== src/Subscription/Ending.antt =====
-- How a subscription (tag_subscribe.go) ends.
use mathlib.Core.Path.{subst}
use gologix.Base.{
  ℕ, zero, suc, ◌≤◌, ◌≡◌, refl, sym, List, [], ◌∷◌, ◌++◌, Bool, true, false, Option, some, length,
  replicate, append-nil, append_assoc, ap, ◌∙◌, le→ltb,
}
use gologix.Subscription.{
  TagSubscription, Phase, polling, value, on_tick, done_closed, errs_closed, values_closed, Event,
  tick, take_value, request_stop, return_loop, close_errs, close_values, step, run,
}

module _ {A : Type 0} (deep_equal : A → A → Bool) where
  -- What is left to do until the channels are closed.
  abbrev pub to_the_end : Phase → List (Event A)
  to_the_end polling = request_stop ∷ return_loop ∷ close_errs ∷ close_values ∷ []
  to_the_end done_closed = close_errs ∷ close_values ∷ []
  to_the_end errs_closed = close_values ∷ []
  to_the_end values_closed = []

  drain :
      (xs : List A) (es : List (Event A)) (sub : TagSubscription A)
      → run deep_equal (replicate (length xs) take_value ++ es) (record sub { values = xs })
        ≡ run deep_equal es (record sub { values = []; received = sub.received ++ xs })
  unfolding run step
  drain [] es sub =
      ap (λ r. run deep_equal es (record sub { values = []; received = r }))
        (sym (append-nil sub.received))
  drain (x ∷ xs) es sub =
      drain xs es (record sub { received = sub.received ++ (x ∷ []) })
      ∙ ap (λ r. run deep_equal es (record sub { values = []; received = r }))
          (append_assoc sub.received (x ∷ []) xs)

  drained :
      (sub : TagSubscription A)
      → run deep_equal (replicate (length sub.values) take_value) sub
        ≡ some (record sub { values = []; received = sub.received ++ sub.values })
  unfolding run
  drained sub =
      ap (λ es. run deep_equal es sub) (sym (append-nil (replicate (length sub.values) take_value)))
      ∙ drain sub.values [] sub

  ends :
      (sub : TagSubscription A) (p : Phase)
      → (last : TagSubscription A) × (run deep_equal
            (to_the_end p ++ replicate (length sub.values) take_value)
            (record sub { phase = p })
          ≡ some last)
        × (last.phase ≡ values_closed)
        × (last.values ≡ [])
        × (last.received ≡ sub.received ++ sub.values)
  unfolding run step
  ends sub polling =
      (_, drained (record sub { stop_requested = true; phase = values_closed }), refl, refl, refl)
  ends sub done_closed = (_, drained (record sub { phase = values_closed }), refl, refl, refl)
  ends sub errs_closed = (_, drained (record sub { phase = values_closed }), refl, refl, refl)
  ends sub values_closed = (_, drained (record sub { phase = values_closed }), refl, refl, refl)

  -- In every state of a subscription, a call of Stop, the return of the loop and the closes of the three
  -- channels that are not closed yet, in their order, and then as many receives as there are values in Values,
  -- can all happen, and at the end Values is closed and empty, and the consumer has every value that was sent.
  pub stop-ends :
      (sub : TagSubscription A)
      → (last : TagSubscription A) × (run deep_equal
            (to_the_end sub.phase ++ replicate (length sub.values) take_value)
            sub
          ≡ some last)
        × (last.phase ≡ values_closed)
        × (last.values ≡ [])
        × (last.received ≡ sub.received ++ sub.values)
  unfolding run
  stop-ends sub = ends sub sub.phase

  -- Ticks that read the value that was last seen.
  ignored :
      (sub : TagSubscription A) (cur : A) (n : ℕ)
      → deep_equal cur cur ≡ true
      → run deep_equal
          (replicate n (tick (value cur)))
          (record sub { phase = polling; prev = some cur })
        ≡ some (record sub { phase = polling; prev = some cur })
  unfolding run step on_tick
  ignored sub cur zero s = refl
  ignored sub cur (suc n) s = rw s (ignored sub cur n s)

  dropped :
      (sub : TagSubscription A) (old cur : A) (n : ℕ)
      → deep_equal cur old ≡ false
      → deep_equal cur cur ≡ true
      → sub.value_cap ≤ length sub.values
      → run deep_equal
          (tick (value cur)
            ∷ (replicate (length sub.values) take_value ++ replicate n (tick (value cur))))
          (record sub { phase = polling; prev = some old })
        ≡ some (record sub {
          phase = polling;
          prev = some cur;
          values = [];
          received = sub.received ++ sub.values;
        })
  unfolding run step on_tick
  dropped sub old cur n d s h =
      rw (d, le→ltb (length sub.values) sub.value_cap h)
        (drain sub.values (replicate n (tick (value cur)))
            (record sub { phase = polling; prev = some cur })
          ∙ ignored (record sub { values = []; received = sub.received ++ sub.values }) cur n s)

  -- The events of a dropped value, and what is left of the subscription.
  abbrev Drops : TagSubscription A → A → ℕ → Phase → Option A → Type 0
  Drops sub cur n ph prev =
      run deep_equal
        (tick (value cur)
          ∷ (replicate (length sub.values) take_value ++ replicate n (tick (value cur))))
        (record sub { phase = ph; prev = prev })
      ≡ some (record sub {
        phase = ph;
        prev = some cur;
        values = [];
        received = sub.received ++ sub.values;
      })

  -- A tick whose value finds Values full changes nothing that is sent, and the ticks that read the same value after
  -- it find nothing to send.
  pub full-drops :
      (sub : TagSubscription A) (old cur : A) (n : ℕ)
      → sub.phase ≡ polling
      → sub.prev ≡ some old
      → deep_equal cur old ≡ false
      → deep_equal cur cur ≡ true
      → sub.value_cap ≤ length sub.values
      → run deep_equal
          (tick (value cur)
            ∷ (replicate (length sub.values) take_value ++ replicate n (tick (value cur))))
          sub
        ≡ some (record sub { prev = some cur; values = []; received = sub.received ++ sub.values })
  unfolding run
  full-drops sub old cur n p q d s h =
      subst (λ ph. Drops sub cur n ph sub.prev) (sym p)
        (subst (Drops sub cur n polling) (sym q) (dropped sub old cur n d s h))
