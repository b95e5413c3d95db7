-- ===== src/Kafka/Ending.antt =====
-- The consumer's loops end (pkg/kafka/kafka.go): the retries of a record that is held, and those of
-- its publication on the dead-letter topic.
use commerce_platform.Common.{
  ◌≡◌, refl, ◌⊎◌, inl, inr, ℕ, zero, suc, ◌+◌, ◌≤◌, Bool, true, false, Option, none, some, List, [],
  ◌∷◌, arith, length, Outcome, ok, err, Error, Bool-cases,
}
use commerce_platform.Common.Int.{ℤ}
use commerce_platform.Kafka.{
  KafkaRecord, Effect, handled, parked, slept, Surroundings, DeadLetter, dead_letter_topic,
  should_hold, hold_backoff, next_delay, succeeded, handle_once, handle_record, after_park,
  park_in_place, after_retry, retry_in_place, after_attempts, dispatch, if_advanced, handle_fetches,
}

abbrev pub Ends : List Effect × Option Bool → Type 0
Ends x = (b : Bool) × (x.1 ≡ some b)

module _ (config : Option DeadLetter) (world : Surroundings) (n : ℕ)
    (calms : (w : List Effect) (r : KafkaRecord) (e : Error)
      → n ≤ length w
      → (world.ended w ≡ true)
        ⊎ ((world.handler w r ≡ ok tt) × (world.publish w r e ≡ ok tt))) where
  -- After `n` effects a context that has not ended lets both calls succeed.
  accepts :
      (w : List Effect) (r : KafkaRecord) (e : Error)
      → n ≤ length w
      → world.ended w ≡ false
      → (world.handler w r ≡ ok tt) × (world.publish w r e ≡ ok tt)
  accepts w r e h going = elim (calms w r e h) [
    | inl ended ↦ absurd (ground (arith, ended, going))
    | inr both ↦ both
  ]

  after_park-Ends :
      (r : KafkaRecord) (delay : ℤ) (cause : Error)
      (again : List Effect → List Effect × Option Bool) (w : List Effect) (a : Outcome (Unit {0}))
      → ((e : Error) (w' : List Effect)
          → a ≡ err e
          → length w' ≡ suc (suc (length w))
          → world.ended w' ≡ false
          → Ends (again w'))
      → Ends (after_park config world r delay cause again w a)
  unfolding after_park
  after_park-Ends r delay cause again w (ok u) next = (true, refl)
  after_park-Ends r delay cause again w (err e) next =
      let w' = slept delay ∷ parked r (dead_letter_topic r.topic) cause false ∷ w in
      elim (Bool-cases (world.ended w')) [
        | inl b ↦ rw b (false, refl)
        | inr b ↦ rw b (next e w' refl refl b)
      ]

  park_in_place-Ends :
      (f : ℕ) (r : KafkaRecord) (delay : ℤ) (cause : Error) (w : List Effect)
      → world.ended w ≡ false
      → n ≤ length w + f
      → Ends (park_in_place config world (suc f) r delay cause w)
  unfolding park_in_place
  park_in_place-Ends zero r delay cause w going h =
      after_park-Ends r delay cause _ w (world.publish w r cause) (λ e w' failed long b.
        absurd (ground (arith, failed, (accepts w r cause (omega (arith, h)) going).1)))
  park_in_place-Ends (suc f) r delay cause w going h =
      after_park-Ends r delay cause _ w (world.publish w r cause) (λ e w' failed long b.
        park_in_place-Ends f r (next_delay delay) cause w' b (omega (arith, h, long)))

  after_retry-Ends :
      (f : ℕ) (r : KafkaRecord) (again : Error → List Effect → List Effect × Option Bool)
      (w : List Effect) (a : Outcome (Unit {0}))
      → n ≤ length w + f
      → ((e : Error) (w' : List Effect)
          → a ≡ err e
          → length w' ≡ suc (length w)
          → world.ended w' ≡ false
          → Ends (again e w'))
      → Ends (after_retry config world (suc f) r again (handled r (succeeded a) ∷ w, a))
  unfolding after_retry
  after_retry-Ends f r again w (ok u) h next = (true, refl)
  after_retry-Ends f r again w (err e) h next =
      let w' = handled r false ∷ w in
      elim (Bool-cases (world.ended w')) [
        | inl b ↦ rw b (false, refl)
        | inr b ↦ elim (Bool-cases (should_hold config e)) [
          | inl c ↦ rw (b, c) (next e w' refl refl b)
          | inr c ↦
              rw (b, c) (park_in_place-Ends f r (hold_backoff config) e w' b (omega (arith, h)))
        ]
      ]

  retry_by :
      (f : ℕ) (r : KafkaRecord) (delay : ℤ) (e : Error) (w : List Effect)
      → n ≤ length w + f
      → (world.ended (slept delay ∷ w) ≡ false
          → (e : Error) (w' : List Effect) → world.handler (slept delay ∷ w) r ≡ err e
          → length w' ≡ suc (length (slept delay ∷ w))
          → world.ended w' ≡ false
          → Ends (retry_in_place config world f r (next_delay delay) e w'))
      → Ends (retry_in_place config world (suc f) r delay e w)
  unfolding retry_in_place handle_once
  retry_by f r delay e w h again = elim (Bool-cases (world.ended (slept delay ∷ w))) [
    | inl b ↦ rw b (false, refl)
    | inr b ↦ rw b (
        after_retry-Ends f r _ (slept delay ∷ w) (world.handler (slept delay ∷ w) r)
          (omega (arith, h)) (again b))
  ]

  retry_in_place-Ends :
      (f : ℕ) (r : KafkaRecord) (delay : ℤ) (e : Error) (w : List Effect)
      → n ≤ length w + f
      → Ends (retry_in_place config world (suc f) r delay e w)
  retry_in_place-Ends zero r delay e w h = retry_by zero r delay e w h (λ b e w' failed long going.
      absurd (ground (arith, failed, (accepts (slept delay ∷ w) r e (omega (arith, h)) b).0)))
  retry_in_place-Ends (suc f) r delay e w h =
      retry_by (suc f) r delay e w h (λ b e w' failed long going.
        retry_in_place-Ends f r (next_delay delay) e w' (omega (arith, h, long)))

  after_attempts-Ends :
      (f : ℕ) (r : KafkaRecord) (x : List Effect × Outcome (Unit {0}))
      → n ≤ f
      → Ends (after_attempts config world (suc f) r x)
  unfolding after_attempts
  after_attempts-Ends f r (w, ok u) h = (true, refl)
  after_attempts-Ends f r (w, err e) h = elim (Bool-cases (world.ended w)) [
    | inl b ↦ rw b (false, refl)
    | inr b ↦ elim (Bool-cases (should_hold config e)) [
      | inl c ↦ rw (b, c) (retry_in_place-Ends f r (hold_backoff config) e w (omega (arith, h)))
      | inr c ↦ rw (b, c) (park_in_place-Ends f r (hold_backoff config) e w b (omega (arith, h)))
    ]
  ]

  if_advanced-Ends :
      (x : List Effect × Option Bool) (next : List Effect → List Effect × Option Bool)
      → Ends x
      → ((w : List Effect) → Ends (next w))
      → Ends (if_advanced x next)
  if_advanced-Ends (w, some true) next h k = k w
  if_advanced-Ends (w, some false) next h k = (false, refl)
  if_advanced-Ends (w, none) next h k = absurd (ground (arith, h.1))

  -- When, from the `n`-th effect on, the context has ended or the handler and the producer accept what
  -- they are given, a fetch comes to its end: fuel of more than `n` steps for each loop is enough,
  -- whatever the configuration, the records and the effects before.
  pub fetches_end :
      (f : ℕ) (rs : List KafkaRecord) (w : List Effect)
      → n ≤ f
      → Ends (handle_fetches config world (suc f) rs w)
  unfolding handle_fetches dispatch
  fetches_end f [] w h = (true, refl)
  fetches_end f (r ∷ rs) w h =
      if_advanced-Ends (dispatch config world (suc f) r w) (handle_fetches config world (suc f) rs)
        (after_attempts-Ends f r (handle_record config world r w) h) (λ w'. fetches_end f rs w' h)
