-- ===== src/Kafka/Outbox/Sequence.antt =====
-- The relay publishes every row once and in order, as long as its updates succeed
-- (pkg/kafka/outbox.go).
use commerce_platform.Common.{
  ◌≡◌, refl, sym, ap, subst, ◌∙◌, inl, inr, ℕ, zero, suc, true, false, Option, none, some, List, [],
  ◌∷◌, ◌++◌, arith, ltb, append_nil, take, All, Outcome, ok, err, Error, Bool-cases,
}
use commerce_platform.Kafka.Outbox.{
  Message, OutboxRow, Relay, Broker, insert_row, unpublished, mark_published, ids_of, after_publish,
  publish_rows, mark_prefix, drain_once, after_pass, drain_until_empty, Moment, inserted, tick,
  live, fresh,
}
use commerce_platform.Kafka.Outbox.Marking.{
  messages_of, drop, Ordered, waiting_row, unpublished-mark_published, Ordered-mark_published,
  messages-mark_published, messages-append, append_assoc,
}

-- Every row is either published or waits, and what was published came first, in order.
abbrev pub InSequence : Relay → Type 0
InSequence s = s.sent ++ messages_of (unpublished s.rows) ≡ messages_of s.rows

abbrev Sound : Relay → Type 0
Sound s = Ordered 0 s.next_id s.rows × InSequence s

-- What the loop published is a prefix of its rows.
abbrev Prefix : List OutboxRow → List Message → ℕ × (List Message × Option Error) → Type 0
Prefix rs sent (n, (sent', e)) = sent' ≡ sent ++ messages_of (take n rs)

after_publish-Prefix :
    (r : OutboxRow) (rs : List OutboxRow) (sent : List Message)
    (next : List Message → ℕ × (List Message × Option Error)) (a : Outcome (Unit {0}))
    → ((sent : List Message) → Prefix rs sent (next sent))
    → Prefix (r ∷ rs) sent (after_publish r.message next sent a)
after_publish-Prefix r rs sent next (err e) h = sym (append_nil sent)
after_publish-Prefix r rs sent next (ok u) h =
    h (sent ++ r.message ∷ [])
    ∙ append_assoc sent (r.message ∷ []) (messages_of (take (next (sent ++ r.message ∷ [])).0 rs))

publish_rows-Prefix :
    (b : Broker) (rs : List OutboxRow) (sent : List Message)
    → Prefix rs sent (publish_rows b rs sent)
unfolding publish_rows
publish_rows-Prefix b [] sent = sym (append_nil sent)
publish_rows-Prefix b (r ∷ rs) sent =
    after_publish-Prefix r rs sent (publish_rows b rs) (b.publish sent r.message)
      (λ s. publish_rows-Prefix b rs s)

take-take : (m n : ℕ) → (k : ℕ) × ((xs : List OutboxRow) → take m (take n xs) ≡ take k xs)
take-take zero n = (0, λ xs. refl)
take-take (suc m) zero = (0, λ xs. refl)
take-take (suc m) (suc n) = let (k, h) = take-take m n in (suc k, both m n k h)
  where
    both :
        (m n k : ℕ)
        → ((xs : List OutboxRow) → take m (take n xs) ≡ take k xs)
        → (xs : List OutboxRow) → take (suc m) (take (suc n) xs) ≡ take (suc k) xs
    both m n k h [] = refl
    both m n k h (x ∷ xs) = ap (λ t. x ∷ t) (h xs)

take-drop :
    (k : ℕ) (xs : List OutboxRow)
    → messages_of (take k xs) ++ messages_of (drop k xs) ≡ messages_of xs
take-drop zero xs = refl
take-drop (suc k) [] = refl
take-drop (suc k) (x ∷ xs) = ap (λ t. x.message ∷ t) (take-drop k xs)

-- Marking what was sent keeps the sequence.
marked-Sound :
    (k : ℕ) (s : Relay) (sent : List Message)
    → Sound s
    → sent ≡ s.sent ++ messages_of (take k (unpublished s.rows))
    → Sound (record s {
      rows = mark_published (ids_of (take k (unpublished s.rows))) s.rows;
      sent = sent;
    })
marked-Sound k s sent (o, h) e =
    let waiting = unpublished s.rows in
    let ids = ids_of (take k waiting) in
    (
      Ordered-mark_published ids 0 s.next_id s.rows o,
      rw (unpublished-mark_published k 0 s.next_id s.rows o, messages-mark_published ids s.rows, e)
          (append_assoc s.sent (messages_of (take k waiting)) (messages_of (drop k waiting))
            ∙ ap (λ t. s.sent ++ t) (take-drop k waiting)
            ∙ h),
    )

abbrev SoundPass : Relay × (ℕ × Option Error) → Type 0
SoundPass (s, x) = Sound s

mark_prefix-Sound :
    (batch : ℕ) (s : Relay) (x : ℕ × (List Message × Option Error))
    → Sound s
    → Prefix (take batch (unpublished s.rows)) s.sent x
    → SoundPass (mark_prefix true (take batch (unpublished s.rows)) x s)
mark_prefix-Sound batch s (zero, (sent, e)) (o, h) p = (
  o,
  subst (λ t. t ++ messages_of (unpublished s.rows) ≡ messages_of s.rows)
      (sym (p ∙ append_nil s.sent)) h,
)
mark_prefix-Sound batch s (suc n, (sent, e)) h p =
    let (k, same) = take-take (suc n) batch in
    let one = same (unpublished s.rows) in
    subst (λ rs. Sound (record s { rows = mark_published (ids_of rs) s.rows; sent = sent }))
      (sym one) (marked-Sound k s sent h (p ∙ ap (λ rs. s.sent ++ messages_of rs) one))

drain_once-Sound :
    (b : Broker) (batch : ℕ) (s : Relay)
    → b.updates ≡ true
    → Sound s
    → SoundPass (drain_once b batch s)
unfolding drain_once
drain_once-Sound b batch s up h =
    let pending = take batch (unpublished s.rows) in
    subst (λ u. SoundPass (mark_prefix u pending (publish_rows b pending s.sent) s)) (sym up)
      (mark_prefix-Sound batch s (publish_rows b (take batch (unpublished s.rows)) s.sent) h
        (publish_rows-Prefix b (take batch (unpublished s.rows)) s.sent))

after_pass-Sound :
    (batch : ℕ) (again : Relay → Relay) (x : Relay × (ℕ × Option Error))
    → SoundPass x
    → ((s : Relay) → Sound s → Sound (again s))
    → Sound (after_pass batch again x)
after_pass-Sound batch again (s, (n, some e)) h k = h
after_pass-Sound batch again (s, (n, none)) h k = elim (Bool-cases (ltb n batch)) [
  | inl c ↦ rw c h
  | inr c ↦ rw c (k s h)
]

drain_until_empty-Sound :
    (fuel : ℕ) (b : Broker) (batch : ℕ) (s : Relay)
    → b.updates ≡ true
    → Sound s
    → Sound (drain_until_empty fuel b batch s)
unfolding drain_until_empty
drain_until_empty-Sound zero b batch s up h = h
drain_until_empty-Sound (suc fuel) b batch s up h = elim (Bool-cases (b.ended s.sent)) [
  | inl c ↦ rw c h
  | inr c ↦ rw c (
      after_pass-Sound batch (drain_until_empty fuel b batch) (drain_once b batch s)
        (drain_once-Sound b batch s up h) (λ s' h'. drain_until_empty-Sound fuel b batch s' up h'))
]

unpublished-append :
    (xs ys : List OutboxRow) → unpublished (xs ++ ys) ≡ unpublished xs ++ unpublished ys
unfolding unpublished
unpublished-append [] ys = refl
unpublished-append (x ∷ xs) ys = elim (Bool-cases x.published) [
  | inl h ↦ rw h (unpublished-append xs ys)
  | inr h ↦
      waiting_row x (xs ++ ys) h
      ∙ ap (λ t. x ∷ t) (unpublished-append xs ys)
      ∙ ap (λ t. t ++ unpublished ys) (sym (waiting_row x xs h))
]

Ordered-append_row :
    (b n : ℕ) (m : Message) (rs : List OutboxRow)
    → Ordered b n rs
    → Ordered b (suc n) (rs ++ record { id = n; message = m; published = false } ∷ [])
Ordered-append_row b n m [] o = (o, omega arith)
Ordered-append_row b n m (r ∷ rs) (l, o) = (l, Ordered-append_row (suc r.id) n m rs o)

insert_row-Sound : (m : Message) (s : Relay) → Sound s → Sound (insert_row m s)
unfolding insert_row unpublished
insert_row-Sound m s (o, h) =
    let new : OutboxRow = record { id = s.next_id; message = m; published = false } in
    (
      Ordered-append_row 0 s.next_id m s.rows o,
      rw (unpublished-append s.rows (new ∷ []), messages-append s.rows (new ∷ []))
          (ap (λ t. s.sent ++ t) (messages-append (unpublished s.rows) (new ∷ []))
            ∙ sym (append_assoc s.sent (messages_of (unpublished s.rows)) (m ∷ []))
            ∙ ap (λ t. t ++ m ∷ []) h),
    )

-- At no tick does the UPDATE fail.
abbrev pub Updates : Moment → Type 0
Updates (inserted m) = Unit
Updates (tick fuel b) = b.updates ≡ true

live-Sound :
    (batch : ℕ) (ms : List Moment) (s : Relay) → All Updates ms → Sound s → Sound (live batch ms s)
unfolding live
live-Sound batch [] s u h = h
live-Sound batch (inserted m ∷ ms) s (u, us) h =
    live-Sound batch ms (insert_row m s) us (insert_row-Sound m s h)
live-Sound batch (tick fuel b ∷ ms) s (u, us) h =
    live-Sound batch ms (drain_until_empty fuel b batch s) us
      (drain_until_empty-Sound fuel b batch s u h)

-- Over any history of insertions and ticks, whatever the broker answers, whenever the context ends
-- and whatever the batch: as long as no UPDATE fails, the messages that the broker accepted, followed
-- by those of the rows that still wait, are the messages of all rows in the order of their
-- insertion. None is skipped, sent twice or sent out of order.
pub published_in_order :
    (batch : ℕ) (ms : List Moment) → All Updates ms → InSequence (live batch ms fresh)
unfolding unpublished
published_in_order batch ms u = (live-Sound batch ms fresh u (omega arith, refl)).1
