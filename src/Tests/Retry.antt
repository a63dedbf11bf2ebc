-- ===== src/Tests/Retry.antt =====
-- The retry queue of crates/stmp2log on a few entries.
use mathlib.Core.List.{Perm}
use stmp2log.Prelude.{ℕ, ◌≢◌, List, [], ◌∷◌, ◌++◌, arith, All}
use stmp2log.Prelude.Int.{pos}
use stmp2log.Prelude.Text.{codes}
use stmp2log.Retry
use stmp2log.Retry.{Item, Pending, Queue, push, status, evict, insert_by_time}
use stmp2log.Retry.Order.{Before, IsSorted}
use stmp2log.Retry.Contents.{push-Perm, push-IsSorted}

abbrev item : ℕ → Item
item n = Retry.push_item (record {
  id = n;
  subject = codes "s";
  payload = record {
    hostname = [];
    ts = pos n;
    envelope_from = [];
    rcpt = [];
    peer = [];
    raw_b64 = [];
  };
})

abbrev waiting : ℕ → Pending
waiting n = record { item = item n; at = pos n; attempts = 1; error = codes "e" }

abbrev entries : List Pending
entries = waiting 10 ∷ waiting 20 ∷ waiting 30 ∷ []

abbrev queue : Queue
queue = record { items = entries; dropped = 0; wakes = [] }

entries-IsSorted : IsSorted entries
entries-IsSorted = ground arith

two : ◌≢◌ {A = ℕ} 2 0
two = λ e. omega arith

push-IsSorted_example :
    All
      (λ x. All (Before x) (push queue (item 4) (pos 25) 3 (codes "e") 2).0.items)
      (push queue (item 4) (pos 25) 3 (codes "e") 2).1
    × IsSorted (push queue (item 4) (pos 25) 3 (codes "e") 2).0.items
push-IsSorted_example = push-IsSorted queue (item 4) (pos 25) 3 (codes "e") 2 entries-IsSorted

push-Perm_example :
    Perm
      ((push queue (item 4) (pos 25) 3 (codes "e") 2).1
        ++ (push queue (item 4) (pos 25) 3 (codes "e") 2).0.items)
      (record { item = item 4; at = pos 25; attempts = 3; error = codes "e" } ∷ entries)
push-Perm_example = push-Perm queue (item 4) (pos 25) 3 (codes "e") 2

-- The entry of 10 is taken out, another task pushes an older one, and the entry is put back in front of it.
abbrev interleaved : Queue
interleaved =
    Retry.requeue
      ((push (record { items = []; dropped = 0; wakes = [] }) (item 5) (pos 5) 3 (codes "e") 9).0)
      (waiting 10)

out_of_order : ¬ IsSorted interleaved.items
unfolding Retry.requeue push evict insert_by_time
out_of_order (a, b) = ground (arith, a)
