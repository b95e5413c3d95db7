-- ===== src/Kafka.antt =====
-- The consumer of pkg/kafka/kafka.go: bounded attempts, in-place retries and the dead-letter topic.
pub mod Settling
pub mod Delivery
pub mod Ending
pub mod Outbox
mod Tests
use Prim.Native.String.{◌++◌ as append_text}
use commerce_platform.Common.{
  ℕ, zero, suc, String, Bool, true, false, not, Option, none, some, List, [], ◌∷◌, ◌++◌,
  if◌then◌else◌, ◌==◌, Outcome, ok, err, Error, new_error, internal,
}
use commerce_platform.Common.Int.{ℤ, pos, ◌*ℤ◌, leb_ℤ, int64}

-- `kgo.Record`, with what the consumer reads of it.
pub record KafkaRecord : Type 0 where
  pub topic : String
  pub partition : ℤ
  pub offset : ℤ
  pub key : String
  pub value : String

-- What the consumer did, with what came of it: a call of the handler, a publication on the dead-letter
-- topic, a wait (in nanoseconds).
pub data Effect : Type 0 where
  handled : KafkaRecord → Bool → Effect
  parked : KafkaRecord → String → Error → Bool → Effect
  slept : ℤ → Effect

-- The rest of the world, after the effects so far, the last one first: the handler, the producer, and
-- whether the context has ended.
pub record Surroundings : Type 0 where
  pub handler : List Effect → KafkaRecord → Outcome (Unit {0})
  pub publish : List Effect → KafkaRecord → Error → Outcome (Unit {0})
  pub ended : List Effect → Bool

-- `DeadLetter`, without its producer.
pub record DeadLetter : Type 0 where
  pub attempts : ℤ
  pub backoff : ℤ
  pub retryable : Option (Error → Bool)

-- `DLQ`.
unfoldable pub dead_letter_topic : String → String
dead_letter_topic topic = append_text topic ".dlq"

-- 200 ms and 30 s.
abbrev pub default_backoff : ℤ
default_backoff = pos 200000000

abbrev pub max_hold_backoff : ℤ
max_hold_backoff = pos 30000000000

-- `WithDeadLetter`.
unfoldable pub with_dead_letter : DeadLetter → DeadLetter
with_dead_letter dl = record dl {
  attempts = if leb_ℤ dl.attempts (pos 0) then pos 3 else dl.attempts;
  backoff = if leb_ℤ dl.backoff (pos 0) then default_backoff else dl.backoff;
}

unfoldable pub should_hold : Option DeadLetter → Error → Bool
should_hold none e = true
should_hold (some dl) e = elim dl.retryable [ none ↦ false | some f ↦ f e ]

unfoldable pub hold_backoff : Option DeadLetter → ℤ
hold_backoff none = default_backoff
hold_backoff (some dl) = dl.backoff

-- `min(delay*2, maxHoldBackoff)`.
unfoldable pub next_delay : ℤ → ℤ
next_delay d =
    let twice = int64 (d *ℤ pos 2) in
    if leb_ℤ twice max_hold_backoff then twice else max_hold_backoff

abbrev pub succeeded : Outcome (Unit {0}) → Bool
succeeded (ok u) = true
succeeded (err e) = false

abbrev pub context_ended : Error
context_ended = new_error internal "CONTEXT_ENDED"

abbrev pub positive : ℤ → ℕ
positive (ℤ.pos n) = n
positive (ℤ.negsuc n) = 0

unfoldable pub attempts_of : Option DeadLetter → ℕ
attempts_of none = 1
attempts_of (some dl) = positive dl.attempts

unfoldable pub backoff_of : Option DeadLetter → ℤ
backoff_of none = pos 0
backoff_of (some dl) = dl.backoff

abbrev pub if_advanced :
    List Effect × Option Bool
    → (List Effect → List Effect × Option Bool)
    → List Effect × Option Bool
if_advanced (w, none) next = (w, none)
if_advanced (w, some false) next = (w, some false)
if_advanced (w, some true) next = next w

module _ (config : Option DeadLetter) (world : Surroundings) where
  unfoldable pub handle_once : KafkaRecord → List Effect → List Effect × Outcome (Unit {0})
  handle_once r w = let a = world.handler w r in (handled r (succeeded a) ∷ w, a)

  -- After a call of the handler: an error ends the record when the context has ended.
  unfoldable pub unless_done :
      List Effect × Outcome (Unit {0})
      → (Error → List Effect → List Effect × Outcome (Unit {0}))
      → List Effect × Outcome (Unit {0})
  unless_done (w, ok u) next = (w, ok u)
  unless_done (w, err e) next = if world.ended w then (w, err e) else next e w

  -- The attempts of `handleRecord` after the first: each waits, for twice as long as the one before.
  unfoldable pub retries :
      KafkaRecord → ℕ → ℤ → Error → List Effect → List Effect × Outcome (Unit {0})
  retries r zero backoff e w = (w, err e)
  retries r (suc n) backoff e w =
      let w' = slept backoff ∷ w in
      let rest = unless_done (handle_once r w') (retries r n (int64 (backoff *ℤ pos 2))) in
      if world.ended w' then (w', err context_ended) else rest

  unfoldable pub attempt : KafkaRecord → ℕ → List Effect → List Effect × Outcome (Unit {0})
  attempt r zero w = (w, ok tt)
  attempt r (suc n) w = unless_done (handle_once r w) (retries r n (backoff_of config))

  -- `handleRecord`.
  unfoldable pub handle_record : KafkaRecord → List Effect → List Effect × Outcome (Unit {0})
  handle_record r w = attempt r (attempts_of config) w

  -- From here on a loop has no bound of its own, and runs on fuel: `none` is that it ran out.
  -- `parkInPlace`, after the publication.
  unfoldable pub after_park :
      KafkaRecord
      → ℤ
      → Error
      → (List Effect → List Effect × Option Bool)
      → List Effect
      → Outcome (Unit {0})
      → List Effect × Option Bool
  after_park r delay cause again w (ok u) =
      (parked r (dead_letter_topic r.topic) cause true ∷ w, some true)
  after_park r delay cause again w (err e) =
      let w' = slept delay ∷ parked r (dead_letter_topic r.topic) cause false ∷ w in
      if world.ended w' then (w', some false) else again w'

  -- `parkInPlace`: the publication is tried again until it succeeds or the context ends.
  unfoldable pub park_in_place :
      ℕ → KafkaRecord → ℤ → Error → List Effect → List Effect × Option Bool
  park_in_place zero r delay cause w = (w, none)
  park_in_place (suc fuel) r delay cause w =
      after_park r delay cause (park_in_place fuel r (next_delay delay) cause) w
        (world.publish w r cause)

  -- `retryInPlace`, after the call of the handler.
  unfoldable pub after_retry :
      ℕ
      → KafkaRecord
      → (Error → List Effect → List Effect × Option Bool)
      → List Effect × Outcome (Unit {0})
      → List Effect × Option Bool
  after_retry fuel r again (w, ok u) = (w, some true)
  after_retry fuel r again (w, err e) =
      if world.ended w
      then (w, some false)
      else if should_hold config e
      then again e w
      else park_in_place fuel r (hold_backoff config) e w

  -- `retryInPlace`.
  unfoldable pub retry_in_place :
      ℕ → KafkaRecord → ℤ → Error → List Effect → List Effect × Option Bool
  retry_in_place zero r delay e w = (w, none)
  retry_in_place (suc fuel) r delay e w =
      let w' = slept delay ∷ w in
      let rest =
        after_retry (suc fuel) r (retry_in_place fuel r (next_delay delay)) (handle_once r w') in
      if world.ended w' then (w', some false) else rest

  -- What `dispatch` does after `handleRecord`.
  unfoldable pub after_attempts :
      ℕ → KafkaRecord → List Effect × Outcome (Unit {0}) → List Effect × Option Bool
  after_attempts fuel r (w, ok u) = (w, some true)
  after_attempts fuel r (w, err e) =
      if world.ended w
      then (w, some false)
      else if should_hold config e
      then retry_in_place fuel r (hold_backoff config) e w
      else park_in_place fuel r (hold_backoff config) e w

  -- `dispatch`: may the offset advance?
  unfoldable pub dispatch : ℕ → KafkaRecord → List Effect → List Effect × Option Bool
  dispatch fuel r w = after_attempts fuel r (handle_record r w)

  -- `handleFetches`: nothing after a record that was given up is touched.
  unfoldable pub handle_fetches : ℕ → List KafkaRecord → List Effect → List Effect × Option Bool
  handle_fetches fuel [] w = (w, some true)
  handle_fetches fuel (r ∷ rs) w = if_advanced (dispatch fuel r w) (handle_fetches fuel rs)

-- What `PollFetches` returns, and whether a commit after it succeeds.
pub record Poll : Type 0 where
  pub failed : Bool
  pub records : List KafkaRecord
  pub commits : Bool

-- The records that were polled, and those whose offsets are committed: a commit covers all that was
-- polled.
pub record Group : Type 0 where
  pub effects : List Effect
  pub polled : List KafkaRecord
  pub committed : List KafkaRecord

abbrev pub settle : Bool → Group → Group
settle true g = record g { committed = g.polled }
settle false g = g

-- The end of a turn of the loop of `Run`, and whether it came to its end.
abbrev pub after_fetches : Poll → List Effect × Option Bool → Group → Group × Bool
after_fetches p (w, some true) g = (settle p.commits (record g { effects = w }), true)
after_fetches p (w, some false) g = (record g { effects = w }, true)
after_fetches p (w, none) g = (record g { effects = w }, false)

abbrev pub if_ended : Group × Bool → (Group → Group) → Group
if_ended (g, true) next = next g
if_ended (g, false) next = g

-- What `NewConsumer` and `WithDeadLetter` make of a configuration.
abbrev pub configured : Option DeadLetter → Option DeadLetter
configured none = none
configured (some dl) = some (with_dead_letter dl)

module _ (config : Option DeadLetter) (world : Surroundings) (fuel : ℕ) where
  -- A turn of the loop: a poll with an error is only logged.
  unfoldable pub turn : Poll → Group → Group × Bool
  turn p g =
      let g' = record g { polled = g.polled ++ p.records } in
      let res = handle_fetches config world fuel p.records g.effects in
      if p.failed then (g', true) else after_fetches p res g'

  -- `Run`, over the polls that are made: it ends with the context.
  unfoldable pub run : List Poll → Group → Group
  run [] g = g
  run (p ∷ ps) g =
      let rest = if_ended (turn p g) (run ps) in if world.ended g.effects then g else rest
