-- ===== src/Subscription/Changes.antt =====
-- What a subscription (tag_subscribe.go) sends on Values, against the reads it has made.
use gologix.Base.{
  ℕ, ◌<◌, ◌≡◌, refl, sym, ◌∙◌, List, [], ◌∷◌, ◌++◌, Bool, true, false, Option, none, some, length,
  ◌==◌, if◌then◌else◌, append_assoc, append-nil, lt→ltb, Bool-cases, inl, inr, Option-cases,
}
use gologix.Base.Result.{Error, Result, ok, err, panic, wrong_type}
use gologix.Wire.{Bytes}
use gologix.Subscription.{
  TagSubscriptionConfig, TagSubscription, Phase, polling, done_closed, errs_closed, values_closed,
  Event, tick, take_value, take_error, request_stop, return_loop, close_errs, close_values,
  ReadResult, value, failure, subscribe_tag, new_subscription, on_tick, offer, step, run,
}

module _ {A : Type 0} (deep_equal : A → A → Bool) where
  -- The reads that differ from the one before them, and the first one where it is to be emitted.
  unfoldable pub changes : Bool → Option A → List A → List A
  changes emit prev [] = []
  changes emit none (x ∷ xs) =
      let later = changes emit (some x) xs in if emit then x ∷ later else later
  changes emit (some old) (x ∷ xs) =
      let same = changes emit (some old) xs in
      let later = changes emit (some x) xs in if deep_equal x old then same else x ∷ later

  -- The values that the ticks have read.
  unfoldable pub reads : List (Event A) → List A
  reads [] = []
  reads (tick (value x) ∷ es) = x ∷ reads es
  reads (tick (failure e) ∷ es) = reads es
  reads (take_value ∷ es) = reads es
  reads (take_error ∷ es) = reads es
  reads (request_stop ∷ es) = reads es
  reads (return_loop ∷ es) = reads es
  reads (close_errs ∷ es) = reads es
  reads (close_values ∷ es) = reads es

  -- A tick finds room in Values.
  abbrev IsRoomFor : Event A → TagSubscription A → Type 0
  IsRoomFor (tick r) sub = length sub.values < sub.value_cap
  IsRoomFor take_value sub = Unit {0}
  IsRoomFor take_error sub = Unit {0}
  IsRoomFor request_stop sub = Unit {0}
  IsRoomFor return_loop sub = Unit {0}
  IsRoomFor close_errs sub = Unit {0}
  IsRoomFor close_values sub = Unit {0}

  abbrev HasRoomAfter : Option (TagSubscription A) → (TagSubscription A → Type 0) → Type 0
  HasRoomAfter none P = Unit {0}
  HasRoomAfter (some next) P = P next

  -- Each tick of a run does.
  unfoldable pub HasRoom : List (Event A) → TagSubscription A → Type 0
  HasRoom [] sub = Unit {0}
  HasRoom (e ∷ es) sub = IsRoomFor e sub × HasRoomAfter (step deep_equal e sub) (HasRoom es)

  -- What has been sent, and what is still to be sent of the reads of a run.
  abbrev due : List (Event A) → TagSubscription A → List A
  due es sub = (sub.received ++ sub.values) ++ changes sub.emit_initial sub.prev (reads es)

  offer_room : (x : A) (cap : ℕ) (xs : List A) → length xs < cap → offer x cap xs ≡ xs ++ (x ∷ [])
  offer_room x cap xs h = rw (lt→ltb (length xs) cap h) refl

  value-due :
      (x : A) (es : List (Event A)) (sub : TagSubscription A) (p : Option A) (t : Bool)
      → offer x sub.value_cap sub.values ≡ sub.values ++ (x ∷ [])
      → due es (on_tick deep_equal (value x) (record sub { prev = p; emit_initial = t }))
        ≡ due (tick (value x) ∷ es) (record sub { prev = p; emit_initial = t })
  unfolding on_tick reads changes
  value-due x es sub none true room = rw room (simp append_assoc)
  value-due x es sub none false room = refl
  value-due x es sub (some old) t room = elim (Bool-cases (deep_equal x old)) [
    | inl same ↦ rw same refl
    | inr other ↦ rw (other, room) (simp append_assoc)
  ]

  tick-due :
      (r : ReadResult A) (es : List (Event A)) (sub : TagSubscription A)
      → length sub.values < sub.value_cap
      → due es (on_tick deep_equal r sub) ≡ due (tick r ∷ es) sub
  unfolding on_tick reads
  tick-due (failure e) es sub h = refl
  tick-due (value x) es sub h =
      value-due x es sub sub.prev sub.emit_initial (offer_room x sub.value_cap sub.values h)

  polled-due :
      (r : ReadResult A) (es : List (Event A)) (sub next : TagSubscription A) (p : Phase)
      → length sub.values < sub.value_cap
      → step deep_equal (tick r) (record sub { phase = p }) ≡ some next
      → due es next ≡ due (tick r ∷ es) sub
  unfolding step
  polled-due r es sub next polling h g =
      let same : on_tick deep_equal r (record sub { phase = polling }) ≡ next = cc in
      rw (← same) (tick-due r es (record sub { phase = polling }) h)
  polled-due r es sub next done_closed h g = cc
  polled-due r es sub next errs_closed h g = cc
  polled-due r es sub next values_closed h g = cc

  taken-due :
      (es : List (Event A)) (sub next : TagSubscription A) (xs : List A)
      → step deep_equal take_value (record sub { values = xs }) ≡ some next
      → due es next ≡ due (take_value ∷ es) (record sub { values = xs })
  unfolding step reads
  taken-due es sub next [] g = cc
  taken-due es sub next (x ∷ xs) g =
      let same : record sub { values = xs; received = sub.received ++ (x ∷ []) } ≡ next = cc in
      rw (← same) (simp append_assoc)

  error-due :
      (es : List (Event A)) (sub next : TagSubscription A) (xs : List Error)
      → step deep_equal take_error (record sub { errs = xs }) ≡ some next
      → due es next ≡ due (take_error ∷ es) sub
  unfolding step reads
  error-due es sub next [] g = cc
  error-due es sub next (x ∷ xs) g =
      let same : record sub { errs = xs } ≡ next = cc in rw (← same) refl

  -- A move of the phase alone, where it is possible.
  moved-due :
      (es : List (Event A)) (sub next : TagSubscription A) (t : Bool) (p : Phase)
      → (if t then some (record sub { phase = p }) else none) ≡ some next
      → due es next ≡ due es sub
  moved-due es sub next true p g =
      let same : record sub { phase = p } ≡ next = cc in rw (← same) refl
  moved-due es sub next false p g = cc

  phase-due :
      (e : Event A) (es : List (Event A)) (sub next : TagSubscription A) (p : Phase)
      → IsRoomFor e sub
      → step deep_equal e (record sub { phase = p }) ≡ some next
      → due es next ≡ due (e ∷ es) sub
  unfolding step reads
  phase-due (tick r) es sub next p h g = polled-due r es sub next p h g
  phase-due take_value es sub next p h g = taken-due es (record sub { phase = p }) next sub.values g
  phase-due take_error es sub next p h g = error-due es (record sub { phase = p }) next sub.errs g
  phase-due request_stop es sub next p h g =
      let same : record sub { phase = p; stop_requested = true } ≡ next = cc in rw (← same) refl
  phase-due return_loop es sub next polling h g =
      moved-due es sub next sub.stop_requested done_closed g
  phase-due return_loop es sub next done_closed h g = cc
  phase-due return_loop es sub next errs_closed h g = cc
  phase-due return_loop es sub next values_closed h g = cc
  phase-due close_errs es sub next polling h g = cc
  phase-due close_errs es sub next done_closed h g = moved-due es sub next true errs_closed g
  phase-due close_errs es sub next errs_closed h g = cc
  phase-due close_errs es sub next values_closed h g = cc
  phase-due close_values es sub next polling h g = cc
  phase-due close_values es sub next done_closed h g = cc
  phase-due close_values es sub next errs_closed h g = moved-due es sub next true values_closed g
  phase-due close_values es sub next values_closed h g = cc

  run-due :
      (es : List (Event A)) (sub last : TagSubscription A)
      → HasRoom es sub
      → run deep_equal es sub ≡ some last
      → due [] last ≡ due es sub
  unfolding run HasRoom reads
  run-due [] sub last h g = let same : sub ≡ last = cc in rw (← same) refl
  run-due (e ∷ es) sub last h g = elim (Option-cases (step deep_equal e sub)) [
    | inl n ↦ let k : ◌≡◌ {A = Option (TagSubscription A)} none (some last) = rw n at g in cc
    | inr (next, s) ↦
        run-due es next last (rw s at h.1) (rw s at g) ∙ phase-due e es sub next sub.phase h.0 s
  ]

  started-due :
      (trim_space : Bytes → Bytes) (connected : Result (Unit {0})) (cfg : TagSubscriptionConfig)
      (sub : TagSubscription A) (es : List (Event A))
      → subscribe_tag trim_space connected cfg ≡ ok sub
      → due es sub ≡ changes cfg.emit_initial none (reads es)
  unfolding subscribe_tag new_subscription
  started-due trim_space (err e) cfg sub es g = cc
  started-due trim_space panic cfg sub es g = cc
  started-due trim_space (ok u) cfg sub es g = named (length (trim_space cfg.tag) == 0) g
    where
      named :
          (t : Bool)
          → (if t then err wrong_type else ok (new_subscription cfg)) ≡ ok sub
          → due es sub ≡ changes cfg.emit_initial none (reads es)
      named true k = cc
      named false k = let same : new_subscription cfg ≡ sub = cc in rw (← same) refl

  -- Of a subscription that SubscribeTag has started, in a run in which each tick finds room in Values, the
  -- values that the consumer has taken, followed by those that are still in Values, are the reads that
  -- differ from the read before them, in their order, and the first read where it is to be emitted;
  -- failed reads change nothing.
  pub received-changes :
      (trim_space : Bytes → Bytes) (connected : Result (Unit {0})) (cfg : TagSubscriptionConfig)
      (sub last : TagSubscription A) (es : List (Event A))
      → subscribe_tag trim_space connected cfg ≡ ok sub
      → HasRoom es sub
      → run deep_equal es sub ≡ some last
      → last.received ++ last.values ≡ changes cfg.emit_initial none (reads es)
  unfolding reads changes
  received-changes trim_space connected cfg sub last es g h k =
      sym (append-nil (last.received ++ last.values))
      ∙ run-due es sub last h k
      ∙ started-due trim_space connected cfg sub es g
