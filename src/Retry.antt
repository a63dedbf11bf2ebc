-- ===== src/Retry.antt =====
-- crates/stmp2log/src/retry.rs: the queue of alerts that could not be delivered. A `VecDeque` is a
-- list with its front first. The calls of `Notify::notify_one` are recorded in the order in which
-- the code makes them; what waits on them is tokio's.
pub mod Evict
pub mod Order
pub mod Contents
use stmp2log.Prelude.{
  ℕ, zero, suc, ◌+◌, ◌*◌, ◌%◌, ◌^◌, min, List, [], ◌∷◌, ◌++◌, Option, none, some, Bool, true, false,
  length, keep, ltb, ◌==◌, if◌then◌else◌,
}
use stmp2log.Prelude.Int.{ℤ, leb_ℤ}
use stmp2log.Prelude.Text.{Text, codes}
use stmp2log.Notify
use stmp2log.Push

abbrev pub first_delay : ℕ
first_delay = 30

abbrev pub max_delay : ℕ
max_delay = 300

-- Durations are seconds.
unfoldable pub next_delay : ℕ → ℕ
next_delay current = min (current * 2) max_delay

pub record QueuedNotify : Type 0 where
  pub channel : ℕ
  pub channel_name : Text
  pub kind : Text
  pub rule : Text
  pub subject : Text
  pub payload : Notify.Payload
  pub email_to : List Text

pub record QueuedPush : Type 0 where
  pub id : ℕ
  pub subject : Text
  pub payload : Push.Payload

pub data Item : Type 0 where
  notify : QueuedNotify → Item
  push_item : QueuedPush → Item

unfoldable pub item_kind : Item → Text
item_kind (notify n) = n.kind
item_kind (push_item p) = codes "push"

unfoldable pub item_subject : Item → Text
item_subject (notify n) = n.subject
item_subject (push_item p) = p.subject

unfoldable pub item_rule : Item → Text
item_rule (notify n) = n.rule
item_rule (push_item p) = []

unfoldable pub is_notify : Item → Bool
is_notify (notify n) = true
is_notify (push_item p) = false

unfoldable pub is_push : Item → Bool
is_push (notify n) = false
is_push (push_item p) = true

pub record Pending : Type 0 where
  pub item : Item
  pub at : ℤ
  pub attempts : ℕ
  pub error : Text

-- The two `Notify` fields of the queue.
pub data Wake : Type 0 where
  work up : Wake

pub record Queue : Type 0 where
  pub items : List Pending
  pub dropped : ℕ
  pub wakes : List Wake

abbrev pub empty : Queue
empty = record { items = []; dropped = 0; wakes = [] }

-- `Iterator::rposition`: the index of the last item that passes.
unfoldable pub rposition {ℓ} : {A : Type ℓ} → (A → Bool) → List A → Option ℕ
rposition p [] = none
rposition p (x ∷ xs) = elim (rposition p xs) [
  | some i ↦ some (suc i)
  | none ↦ if p x then some 0 else none
]

-- `VecDeque::insert` at an index within the length.
unfoldable pub insert_at {ℓ} : {A : Type ℓ} → ℕ → A → List A → List A
insert_at zero a xs = a ∷ xs
insert_at (suc i) a [] = a ∷ []
insert_at (suc i) a (x ∷ xs) = x ∷ insert_at i a xs

-- `map_or(0, |i| i + 1)`
abbrev pub after : Option ℕ → ℕ
after none = 0
after (some i) = suc i

unfoldable pub insert_by_time : List Pending → Pending → List Pending
unfolding rposition insert_at
insert_by_time q p = insert_at (after (rposition (λ x. leb_ℤ x.at p.at) q)) p q

-- The loop of `evict`: it returns what it popped and what stays.
pub evict_loop : ℕ → List Pending → List Pending → List Pending × List Pending
evict_loop max evicted [] = (evicted, [])
evict_loop max evicted (p ∷ q) =
    let rest = evict_loop max (evicted ++ p ∷ []) q in
    if ltb max (length (p ∷ q)) then rest else (evicted, p ∷ q)

unfoldable pub evict : List Pending → ℕ → List Pending × List Pending
unfolding evict_loop
evict q max = if max == 0 then ([], q) else evict_loop max [] q

-- `AtomicU64::fetch_add` wraps around.
abbrev pub fetch_add : ℕ → ℕ → ℕ
fetch_add a b = (a + b) % 2 ^ 64

-- The methods return the new queue and their result.
unfoldable pub push : Queue → Item → ℤ → ℕ → Text → ℕ → Queue × List Pending
push q item at attempts error max =
    let p : Pending = record { item = item; at = at; attempts = attempts; error = error } in
    let (evicted, rest) = evict (insert_by_time q.items p) max in
    (
      record {
        items = rest;
        dropped = fetch_add q.dropped (length evicted);
        wakes = q.wakes ++ work ∷ [];
      },
      evicted,
    )

unfoldable pub trim : Queue → ℕ → Queue × List Pending
trim q max =
    let (evicted, rest) = evict q.items max in
    (record q { items = rest; dropped = fetch_add q.dropped (length evicted) }, evicted)

abbrev pop_of : Queue → List Pending → Queue × Option Pending
pop_of q [] = (q, none)
pop_of q (p ∷ rest) = (record q { items = rest }, some p)

unfoldable pub pop : Queue → Queue × Option Pending
pop q = pop_of q q.items

unfoldable pub requeue : Queue → Pending → Queue
requeue q p = record q { items = p ∷ q.items }

unfoldable pub is_idle : Queue → Bool
is_idle q = length q.items == 0

unfoldable pub kick : Queue → Queue
kick q = record q { wakes = q.wakes ++ work ∷ up ∷ [] }

unfoldable pub recovered : Queue → Queue
unfolding is_idle
recovered q = if is_idle q then q else record q { wakes = q.wakes ++ up ∷ [] }

pub record Status : Type 0 where
  pub pending : ℕ
  pub notifications : ℕ
  pub pushes : ℕ
  pub dropped : ℕ
  pub max : ℕ
  pub oldest : Option ℤ
  pub error : Text

abbrev front : List Pending → Option Pending
front [] = none
front (p ∷ q) = some p

abbrev front_at : Option Pending → Option ℤ
front_at none = none
front_at (some p) = some p.at

abbrev front_error : Option Pending → Text
front_error none = []
front_error (some p) = p.error

unfoldable pub status : Queue → ℕ → Status
unfolding is_notify is_push
status q max = record {
  pending = length q.items;
  notifications = length (keep (λ p. is_notify p.item) q.items);
  pushes = length (keep (λ p. is_push p.item) q.items);
  dropped = q.dropped;
  max = max;
  oldest = front_at (front q.items);
  error = front_error (front q.items);
}
