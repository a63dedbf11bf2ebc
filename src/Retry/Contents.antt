-- ===== src/Retry/Contents.antt =====
-- What the methods of the retry queue of crates/stmp2log/src/retry.rs do to its contents.
use mathlib.Core.List.{Perm}
use mathlib.Core.List.Perm
use stmp2log.Prelude.{
  ℕ, zero, suc, ◌+◌, ◌≡◌, ◌≢◌, refl, ap, List, [], ◌∷◌, ◌++◌, arith, length, keep, min, All,
}
use stmp2log.Prelude.Int.{ℤ}
use stmp2log.Prelude.Text.{Text}
use stmp2log.Retry.{
  Item, Pending, Queue, insert_at, evict, insert_by_time, push, trim, status, is_notify, is_push,
}
use stmp2log.Retry.Evict.{evict-append, length-evict}
use stmp2log.Retry.Order.{IsSorted, Before, insert_by_time-IsSorted}

insert_at-Perm : (i : ℕ) (p : Pending) (q : List Pending) → Perm (insert_at i p q) (p ∷ q)
unfolding insert_at
insert_at-Perm zero p q = Perm.refl _
insert_at-Perm (suc i) p [] = Perm.refl _
insert_at-Perm (suc i) p (x ∷ q) = Perm.trans (Perm.cons x (insert_at-Perm i p q)) (Perm.swap p x q)

All-parts {ℓ} : (P : Pending → Type ℓ) (a b : List Pending) → All P (a ++ b) → All P a × All P b
All-parts P [] b h = (tt, h)
All-parts P (x ∷ a) b (hx, h) = let (ha, hb) = All-parts P a b h in ((hx, ha), hb)

length-insert_at :
    (i : ℕ) (p : Pending) (q : List Pending) → length (insert_at i p q) ≡ suc (length q)
unfolding insert_at
length-insert_at zero p q = refl
length-insert_at (suc i) p [] = refl
length-insert_at (suc i) p (x ∷ q) = ap suc (length-insert_at i p q)

length-insert_by_time :
    (q : List Pending) (p : Pending) → length (insert_by_time q p) ≡ suc (length q)
unfolding insert_by_time
length-insert_by_time q p = length-insert_at _ p q

-- A cut of a sorted queue leaves a sorted queue behind the cut, and all before it are older.
IsSorted-parts :
    (a b : List Pending) → IsSorted (a ++ b) → All (λ x. All (Before x) b) a × IsSorted b
IsSorted-parts [] b s = (tt, s)
IsSorted-parts (x ∷ a) b (hx, s) =
    let (older, sorted) = IsSorted-parts a b s in (((All-parts (Before x) a b hx).1, older), sorted)

module _ (q : Queue) (item : Item) (at : ℤ) (attempts : ℕ) (error : Text) (max : ℕ) where
  abbrev entry : Pending
  entry = record { item = item; at = at; attempts = attempts; error = error }

  push_parts :
      (push q item at attempts error max).1 ++ (push q item at attempts error max).0.items
      ≡ insert_by_time q.items entry
  unfolding push
  push_parts = evict-append (insert_by_time q.items entry) max

  -- Nothing is lost or made up by a push: the entries that it hands back and those that wait are
  -- the new entry and those that waited before.
  pub push-Perm :
      Perm
        ((push q item at attempts error max).1 ++ (push q item at attempts error max).0.items)
        (entry ∷ q.items)
  unfolding insert_by_time
  push-Perm = rw push_parts (insert_at-Perm _ entry q.items)

  -- A push on a sorted queue leaves a sorted queue, and no entry that it evicts is newer than one
  -- that stays.
  pub push-IsSorted :
      IsSorted q.items
      → All
          (λ x. All (Before x) (push q item at attempts error max).0.items)
          (push q item at attempts error max).1
        × IsSorted (push q item at attempts error max).0.items
  push-IsSorted s = IsSorted-parts _ _ (rw push_parts (insert_by_time-IsSorted q.items entry s))

  -- With a limit, the queue after a push is as long as the limit allows, the new entry counted.
  pub length-push :
      max ≢ 0 → length (push q item at attempts error max).0.items ≡ min max (suc (length q.items))
  unfolding push
  length-push h = omega (
    arith,
    length-evict (insert_by_time q.items entry) max h,
    length-insert_by_time q.items entry,
  )

counts :
    (q : List Pending)
    → length (keep (λ p. is_notify p.item) q) + length (keep (λ p. is_push p.item) q) ≡ length q
unfolding keep is_notify is_push
counts [] = omega arith
counts (p ∷ q) = ground (arith, counts q)

-- The two kinds that the status counts are together the number of waiting entries.
pub status-counts :
    (q : Queue) (max : ℕ)
    → (status q max).notifications + (status q max).pushes ≡ (status q max).pending
unfolding status
status-counts q max = counts q.items

-- A trim of a sorted queue leaves a sorted queue.
pub trim-IsSorted : (q : Queue) (max : ℕ) → IsSorted q.items → IsSorted (trim q max).0.items
unfolding trim
trim-IsSorted q max s =
    (IsSorted-parts (evict q.items max).0 (evict q.items max).1 (rw (evict-append q.items max) s)).1
