-- ===== src/Kafka/Settling.antt =====
-- What becomes of one record and of one fetch (dispatch and handleFetches of pkg/kafka/kafka.go).
use commerce_platform.Common.{
  ◌≡◌, refl, sym, subst, ◌⊎◌, inl, inr, ℕ, zero, suc, Bool, true, false, Option, none, some, List,
  [], ◌∷◌, arith, if◌then◌else◌, All, Outcome, ok, err, Error, Bool-cases,
}
use commerce_platform.Common.Int.{ℤ, pos, negsuc, leb_ℤ}
use commerce_platform.Kafka.{
  KafkaRecord, Effect, handled, parked, slept, Surroundings, DeadLetter, dead_letter_topic,
  with_dead_letter, should_hold, hold_backoff, next_delay, succeeded, handle_once, unless_done,
  retries, attempts_of, attempt, handle_record, after_park, park_in_place, after_retry,
  retry_in_place, after_attempts, dispatch, if_advanced, handle_fetches, configured, positive,
}

-- The handler accepted the record, or it is on its dead-letter topic.
abbrev pub Done : KafkaRecord → List Effect → Type 0
Done r [] = ⊥
Done r (handled s true ∷ w) = (s ≡ r) ⊎ Done r w
Done r (handled s false ∷ w) = Done r w
Done r (parked s t e true ∷ w) = (s ≡ r) ⊎ Done r w
Done r (parked s t e false ∷ w) = Done r w
Done r (slept d ∷ w) = Done r w

abbrev pub Kept : List Effect → List Effect → Type 0
Kept w w' = (q : KafkaRecord) → Done q w → Done q w'

module _ (config : Option DeadLetter) (world : Surroundings) where
  -- The result of the attempts, and of a record, started after the effects `w0`.
  abbrev Handles : KafkaRecord → List Effect → List Effect × Outcome (Unit {0}) → Type 0
  Handles r w0 (w, ok u) = Kept w0 w × Done r w
  Handles r w0 (w, err e) = Kept w0 w

  abbrev Settles : KafkaRecord → List Effect → List Effect × Option Bool → Type 0
  Settles r w0 (w, some true) = Kept w0 w × Done r w
  Settles r w0 (w, some false) = Kept w0 w × (world.ended w ≡ true)
  Settles r w0 (w, none) = Kept w0 w

  handled-Handles :
      (r : KafkaRecord) (w0 w : List Effect) (a : Outcome (Unit {0}))
      → Kept w0 w
      → Handles r w0 (handled r (succeeded a) ∷ w, a)
  handled-Handles r w0 w (ok u) k = (λ q d. inr (k q d), inl refl)
  handled-Handles r w0 w (err e) k = k

  -- `next` is run on what the failed call left.
  unless_done-Handles :
      (r : KafkaRecord) (w0 : List Effect) (x : List Effect × Outcome (Unit {0}))
      (next : Error → List Effect → List Effect × Outcome (Unit {0}))
      → Handles r w0 x
      → ((e : Error) (w : List Effect) → Kept w0 w → Handles r w0 (next e w))
      → Handles r w0 (unless_done config world x next)
  unfolding unless_done
  unless_done-Handles r w0 (w, ok u) next h n = h
  unless_done-Handles r w0 (w, err e) next h n = elim (Bool-cases (world.ended w)) [
    | inl b ↦ rw b h
    | inr b ↦ rw b (n e w h)
  ]

  retries-Handles :
      (r : KafkaRecord) (w0 : List Effect) (n : ℕ) (backoff : ℤ) (e : Error) (w : List Effect)
      → Kept w0 w
      → Handles r w0 (retries config world r n backoff e w)
  unfolding retries handle_once
  retries-Handles r w0 zero backoff e w k = k
  retries-Handles r w0 (suc n) backoff e w k = elim (Bool-cases (world.ended (slept backoff ∷ w))) [
    | inl b ↦ rw b k
    | inr b ↦ rw b (
        unless_done-Handles r w0 (handle_once config world r (slept backoff ∷ w)) _
          (handled-Handles r w0 (slept backoff ∷ w) (world.handler (slept backoff ∷ w) r) k)
          (λ e w k. retries-Handles r w0 n _ e w k))
  ]

  attempt-Handles :
      (r : KafkaRecord) (n : ℕ) (w : List Effect) → Handles r w (attempt config world r (suc n) w)
  unfolding attempt handle_once
  attempt-Handles r n w =
      unless_done-Handles r w (handle_once config world r w) _
        (handled-Handles r w w (world.handler w r) (λ q d. d))
        (λ e w' k. retries-Handles r w n _ e w' k)

  after_park-Settles :
      (r : KafkaRecord) (w0 : List Effect) (delay : ℤ) (cause : Error)
      (again : List Effect → List Effect × Option Bool) (w : List Effect) (a : Outcome (Unit {0}))
      → Kept w0 w
      → ((w : List Effect) → Kept w0 w → Settles r w0 (again w))
      → Settles r w0 (after_park config world r delay cause again w a)
  unfolding after_park
  after_park-Settles r w0 delay cause again w (ok u) k n = (λ q d. inr (k q d), inl refl)
  after_park-Settles r w0 delay cause again w (err e) k n =
      let w' = slept delay ∷ parked r (dead_letter_topic r.topic) cause false ∷ w in
      elim (Bool-cases (world.ended w')) [ inl b ↦ rw b (k, b) | inr b ↦ rw b (n w' k) ]

  park_in_place-Settles :
      (fuel : ℕ) (r : KafkaRecord) (w0 : List Effect) (delay : ℤ) (cause : Error) (w : List Effect)
      → Kept w0 w
      → Settles r w0 (park_in_place config world fuel r delay cause w)
  unfolding park_in_place
  park_in_place-Settles zero r w0 delay cause w k = k
  park_in_place-Settles (suc fuel) r w0 delay cause w k =
      after_park-Settles r w0 delay cause
        (park_in_place config world fuel r (next_delay delay) cause) w (world.publish w r cause) k
        (λ w' k'. park_in_place-Settles fuel r w0 (next_delay delay) cause w' k')

  after_retry-Settles :
      (fuel : ℕ) (r : KafkaRecord) (w0 : List Effect)
      (again : Error → List Effect → List Effect × Option Bool)
      (x : List Effect × Outcome (Unit {0}))
      → Handles r w0 x
      → ((e : Error) (w : List Effect) → Kept w0 w → Settles r w0 (again e w))
      → Settles r w0 (after_retry config world fuel r again x)
  unfolding after_retry
  after_retry-Settles fuel r w0 again (w, ok u) h n = h
  after_retry-Settles fuel r w0 again (w, err e) h n = elim (Bool-cases (world.ended w)) [
    | inl b ↦ rw b (h, b)
    | inr b ↦ elim (Bool-cases (should_hold config e)) [
      | inl c ↦ rw (b, c) (n e w h)
      | inr c ↦ rw (b, c) (park_in_place-Settles fuel r w0 (hold_backoff config) e w h)
    ]
  ]

  retry_in_place-Settles :
      (fuel : ℕ) (r : KafkaRecord) (w0 : List Effect) (delay : ℤ) (e : Error) (w : List Effect)
      → Kept w0 w
      → Settles r w0 (retry_in_place config world fuel r delay e w)
  unfolding retry_in_place handle_once
  retry_in_place-Settles zero r w0 delay e w k = k
  retry_in_place-Settles (suc fuel) r w0 delay e w k =
      let w' = slept delay ∷ w in
      elim (Bool-cases (world.ended w')) [
        | inl b ↦ rw b (k, b)
        | inr b ↦ rw b (
            after_retry-Settles (suc fuel) r w0
              (retry_in_place config world fuel r (next_delay delay))
              (handle_once config world r w') (handled-Handles r w0 w' (world.handler w' r) k)
              (λ e w k. retry_in_place-Settles fuel r w0 (next_delay delay) e w k))
      ]

  after_attempts-Settles :
      (fuel : ℕ) (r : KafkaRecord) (w0 : List Effect) (x : List Effect × Outcome (Unit {0}))
      → Handles r w0 x
      → Settles r w0 (after_attempts config world fuel r x)
  unfolding after_attempts
  after_attempts-Settles fuel r w0 (w, ok u) h = h
  after_attempts-Settles fuel r w0 (w, err e) h = elim (Bool-cases (world.ended w)) [
    | inl b ↦ rw b (h, b)
    | inr b ↦ elim (Bool-cases (should_hold config e)) [
      | inl c ↦ rw (b, c) (retry_in_place-Settles fuel r w0 (hold_backoff config) e w h)
      | inr c ↦ rw (b, c) (park_in_place-Settles fuel r w0 (hold_backoff config) e w h)
    ]
  ]

  -- Of a fetch: all records are done, or the context has ended.
  abbrev pub AllSettle : List KafkaRecord → List Effect → List Effect × Option Bool → Type 0
  AllSettle rs w0 (w, some true) = Kept w0 w × All (λ r. Done r w) rs
  AllSettle rs w0 (w, some false) = Kept w0 w × (world.ended w ≡ true)
  AllSettle rs w0 (w, none) = Kept w0 w

  first-AllSettle :
      (r : KafkaRecord) (rs : List KafkaRecord) (w0 w1 : List Effect)
      (x : List Effect × Option Bool)
      → Kept w0 w1
      → Done r w1
      → AllSettle rs w1 x
      → AllSettle (r ∷ rs) w0 x
  first-AllSettle r rs w0 w1 (w, some true) k d (k', ds) = (λ q h. k' q (k q h), (k' r d, ds))
  first-AllSettle r rs w0 w1 (w, some false) k d (k', b) = (λ q h. k' q (k q h), b)
  first-AllSettle r rs w0 w1 (w, none) k d k' = λ q h. k' q (k q h)

  if_advanced-AllSettle :
      (r : KafkaRecord) (rs : List KafkaRecord) (w0 : List Effect) (x : List Effect × Option Bool)
      (next : List Effect → List Effect × Option Bool)
      → Settles r w0 x
      → ((w : List Effect) → AllSettle rs w (next w))
      → AllSettle (r ∷ rs) w0 (if_advanced x next)
  if_advanced-AllSettle r rs w0 (w, some true) next (k, d) n =
      first-AllSettle r rs w0 w (next w) k d (n w)
  if_advanced-AllSettle r rs w0 (w, some false) next h n = h
  if_advanced-AllSettle r rs w0 (w, none) next h n = h

  pub fetches-AllSettle :
      (fuel : ℕ) (rs : List KafkaRecord) (w : List Effect)
      → ((r : KafkaRecord) (w : List Effect) → Settles r w (dispatch config world fuel r w))
      → AllSettle rs w (handle_fetches config world fuel rs w)
  unfolding handle_fetches
  fetches-AllSettle fuel [] w each = (λ q d. d, tt)
  fetches-AllSettle fuel (r ∷ rs) w each =
      if_advanced-AllSettle r rs w (dispatch config world fuel r w)
        (handle_fetches config world fuel rs) (each r w) (λ w'. fetches-AllSettle fuel rs w' each)

positive_attempts : (a : ℤ) → (n : ℕ) × (positive (if leb_ℤ a (pos 0) then pos 3 else a) ≡ suc n)
positive_attempts (pos zero) = (2, refl)
positive_attempts (pos (suc n)) = (n, ground arith)
positive_attempts (negsuc n) = (2, ground arith)

some_attempts : (c : Option DeadLetter) → (n : ℕ) × (attempts_of (configured c) ≡ suc n)
unfolding attempts_of with_dead_letter
some_attempts none = (0, refl)
some_attempts (some dl) = positive_attempts dl.attempts

pub dispatch-Settles :
    (c : Option DeadLetter) (world : Surroundings) (fuel : ℕ) (r : KafkaRecord) (w : List Effect)
    → Settles (configured c) world r w (dispatch (configured c) world fuel r w)
unfolding dispatch handle_record
dispatch-Settles c world fuel r w =
    let (n, e) = some_attempts c in
    after_attempts-Settles (configured c) world fuel r w _ (
      subst (λ k. Handles (configured c) world r w (attempt (configured c) world r k w)) (sym e)
        (attempt-Handles (configured c) world r n w))
