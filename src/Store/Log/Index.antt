-- ===== src/Store/Log/Index.antt =====
-- crates/s2l-store/src/lib.rs: the index is sorted by the numbers of the messages, each of them below the
-- next one.
use stmp2log.Prelude.{
  ℕ, ◌+◌, ◌%◌, ◌^◌, ◌≤◌, ◌<◌, max, ◌≡◌, List, [], ◌∷◌, ◌++◌, Bool, All, All-append, All-keep, ltb,
  ◌==◌, keep, arith, Bool-cases, inl, inr,
}
use stmp2log.Store.Record.{MetaRec, MetaLine}
use stmp2log.Store.Segments
use stmp2log.Store.Segments.{Segments}
use stmp2log.Store.Log
use stmp2log.Store.Log.{Inner, Replay, insert_live, pop_excess, pop_old, retained, regroup}

abbrev pub Below : ℕ → MetaRec → Type 0
Below n m = m.id < n

abbrev pub Above : ℕ → MetaRec → Type 0
Above n m = n < m.id

abbrev pub IsAscending : List MetaRec → Type 0
IsAscending [] = Unit
IsAscending (m ∷ ms) = All (Above m.id) ms × IsAscending ms

-- The numbers of the index ascend, and the next one is above them.
abbrev pub IsIndex : ℕ → List MetaRec → Type 0
IsIndex n index = IsAscending index × All (Below n) index

pub IsAscending-keep :
    (p : MetaRec → Bool) (ms : List MetaRec) → IsAscending ms → IsAscending (keep p ms)
unfolding keep
IsAscending-keep p [] h = tt
IsAscending-keep p (m ∷ ms) (a, h) =
    let rest = IsAscending-keep p ms h in
    let above = All-keep (Above m.id) p ms a in
    elim (Bool-cases (p m)) [ inl e ↦ rw e (above, rest) | inr e ↦ rw e rest ]

pub IsAscending-append_last :
    (ms : List MetaRec) (r : MetaRec)
    → IsAscending ms
    → All (Below r.id) ms
    → IsAscending (ms ++ r ∷ [])
IsAscending-append_last [] r h b = (tt, tt)
IsAscending-append_last (m ∷ ms) r (a, h) (mb, b) =
    (All-append (Above m.id) ms (r ∷ []) a (mb, tt), IsAscending-append_last ms r h b)

All-last {ℓ} : (P : MetaRec → Type ℓ) (ms : List MetaRec) (r : MetaRec) → All P (ms ++ r ∷ []) → P r
All-last P [] r (h, _) = h
All-last P (m ∷ ms) r (_, a) = All-last P ms r a

-- All that stands before the last is below it.
pub IsAscending-last :
    (ms : List MetaRec) (r : MetaRec) → IsAscending (ms ++ r ∷ []) → All (Below r.id) ms
IsAscending-last [] r h = tt
IsAscending-last (m ∷ ms) r (a, h) = (All-last (Above m.id) ms r a, IsAscending-last ms r h)

pub All-Below_le : (n k : ℕ) (ms : List MetaRec) → n ≤ k → All (Below n) ms → All (Below k) ms
All-Below_le n k [] h a = tt
All-Below_le n k (m ∷ ms) h (b, a) = (omega arith, All-Below_le n k ms h a)

All-Above_le : (n k : ℕ) (ms : List MetaRec) → n ≤ k → All (Above k) ms → All (Above n) ms
All-Above_le n k [] h a = tt
All-Above_le n k (m ∷ ms) h (b, a) = (omega arith, All-Above_le n k ms h a)

All-insert_live {ℓ} :
    (P : MetaRec → Type ℓ) (r : MetaRec) (ms : List MetaRec)
    → P r
    → All P ms
    → All P (insert_live r ms)
unfolding insert_live
All-insert_live P r [] h a = (h, tt)
All-insert_live P r (m ∷ ms) h (b, a) = ground (arith, All-insert_live P r ms h a)

insert_live-IsAscending :
    (r : MetaRec) (ms : List MetaRec) → IsAscending ms → IsAscending (insert_live r ms)
unfolding insert_live
insert_live-IsAscending r [] h = (tt, tt)
insert_live-IsAscending r (m ∷ ms) (a, h) = elim (Bool-cases (m.id == r.id)) [
  | inl e ↦ rw e (All-Above_le r.id m.id ms (ground arith) a, h)
  | inr e ↦ elim (Bool-cases (ltb r.id m.id)) [
    | inl l ↦
        let rm : r.id < m.id = ground arith in
        rw e (rw l ((rm, All-Above_le r.id m.id ms (omega arith) a), (a, h)))
    | inr l ↦
        let mr : m.id < r.id = ground arith in
        rw e (rw l (All-insert_live (Above m.id) r ms mr a, insert_live-IsAscending r ms h))
  ]
]

-- What is read from the log is sorted, and its numbers have been seen.
abbrev IsRead : Replay → Type 0
IsRead p = IsIndex (p.max_seen + 1) p.live

replay_line-IsRead : (p : Replay) (l : MetaLine) → IsRead p → IsRead (Log.replay_line p l)
unfolding Log.replay_line
replay_line-IsRead p (MetaLine.msg r) (a, b) =
    let seen = All-Below_le (p.max_seen + 1) (max p.max_seen r.id + 1) p.live (omega arith) b in
    (
      insert_live-IsAscending r p.live a,
      All-insert_live (Below (max p.max_seen r.id + 1)) r p.live (omega arith) seen,
    )
replay_line-IsRead p (MetaLine.del id) (a, b) =
    let seen = All-Below_le (p.max_seen + 1) (max p.max_seen id + 1) p.live (omega arith) b in
    (IsAscending-keep _ p.live a, All-keep (Below (max p.max_seen id + 1)) _ p.live seen)
replay_line-IsRead p (MetaLine.floor_line id) (a, b) =
    (a, All-Below_le (p.max_seen + 1) (max p.max_seen id + 1) p.live (omega arith) b)

replay-IsRead : (p : Replay) (ls : List MetaLine) → IsRead p → IsRead (Log.replay p ls)
unfolding Log.replay
replay-IsRead p [] h = h
replay-IsRead p (l ∷ ls) h = replay-IsRead (Log.replay_line p l) ls (replay_line-IsRead p l h)

-- What is read from the log is an index, if the numbers leave room for one more.
pub replayed-IsIndex :
    (retention : Log.Retention) (s : Segments)
    → (Log.replay Log.no_lines (Log.lines_of s (Segments.nums s))).max_seen + 1 < 2 ^ 64
    → IsIndex (Log.replayed retention s).next_id (Log.replayed retention s).index
unfolding Log.replayed
replayed-IsIndex retention s small =
    let p = Log.replay Log.no_lines (Log.lines_of s (Segments.nums s)) in
    let (a, b) = replay-IsRead Log.no_lines (Log.lines_of s (Segments.nums s)) (tt, tt) in
    let next : (p.max_seen + 1) % 2 ^ 64 ≡ p.max_seen + 1 = omega (arith, small) in
    (IsAscending-keep _ p.live a, All-keep (Below ((p.max_seen + 1) % 2 ^ 64)) _ p.live (rw next b))
