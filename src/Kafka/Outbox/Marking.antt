-- ===== src/Kafka/Outbox/Marking.antt =====
-- The UPDATE of the rows that were published (pkg/kafka/outbox.go).
use commerce_platform.Common.{
  ◌≡◌, refl, ap, ◌∙◌, inl, inr, ℕ, zero, suc, ◌≤◌, true, false, List, [], ◌∷◌, ◌++◌, arith, take,
  Bool-cases,
}
use commerce_platform.Kafka.Outbox.{
  Message, OutboxRow, unpublished, contains_id, mark_published, ids_of,
}

abbrev pub messages_of : List OutboxRow → List Message
messages_of [] = []
messages_of (r ∷ rs) = r.message ∷ messages_of rs

abbrev pub drop : {A : Type 0} → ℕ → List A → List A
drop zero xs = xs
drop (suc n) [] = []
drop (suc n) (x ∷ xs) = drop n xs

-- The ids grow, from `b` on and below `n`.
abbrev pub Ordered : ℕ → ℕ → List OutboxRow → Type 0
Ordered b n [] = b ≤ n
Ordered b n (r ∷ rs) = (b ≤ r.id) × Ordered (suc r.id) n rs

skip_id :
    (i : ℕ) (ids : List ℕ) (b n : ℕ) (rs : List OutboxRow)
    → suc i ≤ b
    → Ordered b n rs
    → mark_published (i ∷ ids) rs ≡ mark_published ids rs
unfolding mark_published
skip_id i ids b n [] h o = refl
skip_id i ids b n (r ∷ rs) h (l, o) =
    ground (arith, h, l, skip_id i ids (suc r.id) n rs (omega (arith, h, l)) o)

mark_none : (rs : List OutboxRow) → mark_published [] rs ≡ rs
unfolding mark_published
mark_none [] = refl
mark_none (r ∷ rs) = ap (λ t. r ∷ t) (mark_none rs)

published_row :
    (r : OutboxRow) (rs : List OutboxRow)
    → r.published ≡ true
    → unpublished (r ∷ rs) ≡ unpublished rs
unfolding unpublished
published_row r rs h = rw h refl

pub waiting_row :
    (r : OutboxRow) (rs : List OutboxRow)
    → r.published ≡ false
    → unpublished (r ∷ rs) ≡ r ∷ unpublished rs
unfolding unpublished
waiting_row r rs h = rw h refl

mark_published_row :
    (ids : List ℕ) (r : OutboxRow) (rs : List OutboxRow)
    → r.published ≡ true
    → unpublished (mark_published ids (r ∷ rs)) ≡ unpublished (mark_published ids rs)
unfolding unpublished mark_published
mark_published_row ids r rs h = ground (arith, h)

mark_first_row :
    (ids : List ℕ) (r : OutboxRow) (rs : List OutboxRow)
    → unpublished (mark_published (r.id ∷ ids) (r ∷ rs))
      ≡ unpublished (mark_published (r.id ∷ ids) rs)
unfolding unpublished mark_published
mark_first_row ids r rs = ground arith

no_rows :
    (k : ℕ)
    → unpublished (mark_published (ids_of (take (suc k) (unpublished []))) [])
      ≡ drop (suc k) (unpublished [])
unfolding unpublished mark_published
no_rows k = refl

-- The first `k` waiting rows are marked: the others go on waiting.
pub unpublished-mark_published :
    (k b n : ℕ) (rs : List OutboxRow)
    → Ordered b n rs
    → unpublished (mark_published (ids_of (take k (unpublished rs))) rs) ≡ drop k (unpublished rs)
unpublished-mark_published zero b n rs o = ap unpublished (mark_none rs)
unpublished-mark_published (suc k) b n [] o = no_rows k
unpublished-mark_published (suc k) b n (r ∷ rs) (l, o) = elim (Bool-cases r.published) [
  | inl h ↦ rw (published_row r rs h) (
      mark_published_row (ids_of (take (suc k) (unpublished rs))) r rs h
      ∙ unpublished-mark_published (suc k) (suc r.id) n rs o)
  | inr h ↦ rw (waiting_row r rs h) (
      mark_first_row (ids_of (take k (unpublished rs))) r rs
      ∙ ap unpublished
          (skip_id r.id (ids_of (take k (unpublished rs))) (suc r.id) n rs (omega arith) o)
      ∙ unpublished-mark_published k (suc r.id) n rs o)
]

pub Ordered-mark_published :
    (ids : List ℕ) (b n : ℕ) (rs : List OutboxRow)
    → Ordered b n rs
    → Ordered b n (mark_published ids rs)
unfolding mark_published
Ordered-mark_published ids b n [] o = o
Ordered-mark_published ids b n (r ∷ rs) (l, o) = elim (Bool-cases (contains_id r.id ids)) [
  | inl h ↦ rw h (l, Ordered-mark_published ids (suc r.id) n rs o)
  | inr h ↦ rw h (l, Ordered-mark_published ids (suc r.id) n rs o)
]

pub messages-mark_published :
    (ids : List ℕ) (rs : List OutboxRow) → messages_of (mark_published ids rs) ≡ messages_of rs
unfolding mark_published
messages-mark_published ids [] = refl
messages-mark_published ids (r ∷ rs) = elim (Bool-cases (contains_id r.id ids)) [
  | inl h ↦ rw h (ap (λ t. r.message ∷ t) (messages-mark_published ids rs))
  | inr h ↦ rw h (ap (λ t. r.message ∷ t) (messages-mark_published ids rs))
]

pub messages-append :
    (xs ys : List OutboxRow) → messages_of (xs ++ ys) ≡ messages_of xs ++ messages_of ys
messages-append [] ys = refl
messages-append (x ∷ xs) ys = ap (λ t. x.message ∷ t) (messages-append xs ys)

pub append_assoc : (xs ys zs : List Message) → (xs ++ ys) ++ zs ≡ xs ++ (ys ++ zs)
append_assoc [] ys zs = refl
append_assoc (x ∷ xs) ys zs = ap (λ t. x ∷ t) (append_assoc xs ys zs)
