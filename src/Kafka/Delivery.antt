-- ===== src/Kafka/Delivery.antt =====
-- At-least-once delivery of the consumer (pkg/kafka/kafka.go): what is committed was dealt with.
use commerce_platform.Common.{
  ◌≡◌, refl, ◌⊎◌, ℕ, Bool, true, false, Option, List, [], ◌∷◌, ◌++◌, All, append_nil,
}
use commerce_platform.Kafka.{
  KafkaRecord, Effect, Surroundings, DeadLetter, handle_fetches, Poll, Group, turn, run,
}
use commerce_platform.Kafka.Settling.{Done}

module _ (c : Option DeadLetter) (world : Surroundings) (fuel : ℕ) where
  abbrev AllDone : List KafkaRecord → List Effect → Type 0
  AllDone rs w = All (λ r. Done r w) rs

  -- What is committed is done, and what was polled is done too, unless the context has ended.
  abbrev Sound : Group → Type 0
  Sound g =
      AllDone g.committed g.effects × (AllDone g.polled g.effects ⊎ (world.ended g.effects ≡ true))

  -- The end of a turn, whatever became of the fetch.
  abbrev Turned : Group × Bool → Type 0
  Turned (g, true) = Sound g
  Turned (g, false) = AllDone g.committed g.effects

-- A poll that reports an error and returns records all the same, when the context has not ended:
-- none of them is handled or parked, and the commit after a next poll without an error, which returns
-- no record, covers them, so that their events are lost.
pub failed_poll_loses :
    (c : Option DeadLetter) (world : Surroundings) (fuel : ℕ) (rs : List KafkaRecord) (b : Bool)
    (g : Group)
    → world.ended g.effects ≡ false
    → let empty_poll : Poll = record { failed = false; records = []; commits = true } in
      let lost : Poll = record { failed = true; records = rs; commits = b } in
      let g' = run c world fuel (lost ∷ empty_poll ∷ []) g in
      (g'.committed ≡ g.polled ++ rs) × (g'.effects ≡ g.effects)
unfolding run turn handle_fetches
failed_poll_loses c world fuel rs b g going = rw going (append_nil (g.polled ++ rs), refl)
