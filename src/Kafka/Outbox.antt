-- ===== src/Kafka/Outbox.antt =====
-- The relay of a service's outbox table to Kafka (pkg/kafka/outbox.go).
pub mod Marking
pub mod Sequence
use commerce_platform.Common.{
  ℕ, zero, suc, ◌+◌, String, Bool, true, false, ◌||◌, Option, none, some, List, [], ◌∷◌, ◌++◌,
  if◌then◌else◌, ◌==◌, ltb, length, take, Outcome, ok, err, Error, new_error, internal,
}

-- What `Publish` sends, with no headers.
pub record Message : Type 0 where
  pub topic : String
  pub key : String
  pub payload : String

-- A row; `published_at` only as whether it is set.
pub record OutboxRow : Type 0 where
  pub id : ℕ
  pub message : Message
  pub published : Bool

-- The table in the order of its ids, the next id of its IDENTITY column, and what the broker has
-- accepted, the first one first.
pub record Relay : Type 0 where
  pub rows : List OutboxRow
  pub next_id : ℕ
  pub sent : List Message

-- What the broker answers to a message after those it accepted, whether the UPDATE succeeds, and
-- whether the context has ended.
pub record Broker : Type 0 where
  pub publish : List Message → Message → Outcome (Unit {0})
  pub updates : Bool
  pub ended : List Message → Bool

abbrev pub db_error : Error
db_error = new_error internal "DB_ERROR"

-- `INSERT INTO outbox`, in some transaction of the service.
unfoldable pub insert_row : Message → Relay → Relay
insert_row m s = record s {
  rows = s.rows ++ record { id = s.next_id; message = m; published = false } ∷ [];
  next_id = suc s.next_id;
}

-- `WHERE published_at IS NULL`.
unfoldable pub unpublished : List OutboxRow → List OutboxRow
unpublished [] = []
unpublished (r ∷ rs) = let rest = unpublished rs in if r.published then rest else r ∷ rest

abbrev pub contains_id : ℕ → List ℕ → Bool
contains_id i [] = false
contains_id i (j ∷ js) = (i == j) || contains_id i js

-- `UPDATE outbox SET published_at = now() WHERE id = ANY($1)`.
unfoldable pub mark_published : List ℕ → List OutboxRow → List OutboxRow
mark_published ids [] = []
mark_published ids (r ∷ rs) =
    (if contains_id r.id ids then record r { published = true } else r) ∷ mark_published ids rs

abbrev pub ids_of : List OutboxRow → List ℕ
ids_of [] = []
ids_of (r ∷ rs) = r.id ∷ ids_of rs

-- The loop of `drainOnce`: how many of the rows were published, up to the first failure.
abbrev pub after_publish :
    Message
    → (List Message → ℕ × (List Message × Option Error))
    → List Message
    → Outcome (Unit {0})
    → ℕ × (List Message × Option Error)
after_publish m next sent (ok u) = let (n, rest) = next (sent ++ m ∷ []) in (suc n, rest)
after_publish m next sent (err e) = (0, (sent, some e))

unfoldable pub publish_rows :
    Broker → List OutboxRow → List Message → ℕ × (List Message × Option Error)
publish_rows b [] sent = (0, (sent, none))
publish_rows b (r ∷ rs) sent =
    after_publish r.message (publish_rows b rs) sent (b.publish sent r.message)

-- The end of `drainOnce`: the published rows are marked in one statement, if there are any.
abbrev pub mark_prefix :
    Bool → List OutboxRow → ℕ × (List Message × Option Error) → Relay → Relay × (ℕ × Option Error)
mark_prefix updates pending (zero, (sent, e)) s = (record s { sent = sent }, (0, e))
mark_prefix true pending (suc n, (sent, e)) s = (
  record s { rows = mark_published (ids_of (take (suc n) pending)) s.rows; sent = sent },
  (suc n, e),
)
mark_prefix false pending (suc n, (sent, e)) s = (record s { sent = sent }, (suc n, some db_error))

-- `drainOnce`: the number of rows relayed, and an error.
unfoldable pub drain_once : Broker → ℕ → Relay → Relay × (ℕ × Option Error)
drain_once b batch s =
    let pending = take batch (unpublished s.rows) in
    mark_prefix b.updates pending (publish_rows b pending s.sent) s

-- `drainUntilEmpty` goes on while a pass is full, for at most as many passes as the fuel says.
abbrev pub after_pass : ℕ → (Relay → Relay) → Relay × (ℕ × Option Error) → Relay
after_pass batch again (s, (n, some e)) = s
after_pass batch again (s, (n, none)) = if ltb n batch then s else again s

unfoldable pub drain_until_empty : ℕ → Broker → ℕ → Relay → Relay
drain_until_empty zero b batch s = s
drain_until_empty (suc fuel) b batch s =
    let rest = after_pass batch (drain_until_empty fuel b batch) (drain_once b batch s) in
    if b.ended s.sent then s else rest

-- The life of a relay: rows come in, and ticks come with whatever the broker then answers.
pub data Moment : Type 0 where
  inserted : Message → Moment
  tick : ℕ → Broker → Moment

unfoldable pub live : ℕ → List Moment → Relay → Relay
live batch [] s = s
live batch (inserted m ∷ ms) s = live batch ms (insert_row m s)
live batch (tick fuel b ∷ ms) s = live batch ms (drain_until_empty fuel b batch s)

abbrev pub fresh : Relay
fresh = record { rows = []; next_id = 1; sent = [] }
