-- ===== src/Store/Log/LastWord.antt =====
-- crates/s2l-store/src/lib.rs: what reading the log again gives for each number.
use stmp2log.Prelude.{
  ℕ, max, ◌≡◌, refl, ap, ◌∙◌, List, [], ◌∷◌, Option, none, some, not, keep, leb, ◌==◌, arith,
  Bool-cases, inl, inr, if◌then◌else◌,
}
use stmp2log.Store.Record.{MetaRec, MetaLine}
use stmp2log.Store.Segments
use stmp2log.Store.Segments.{Segments}
use stmp2log.Store.Log
use stmp2log.Store.Log.{Replay, find_id, insert_live}

-- The last word of the lines on a number.
abbrev pub last_word : ℕ → Option MetaRec → List MetaLine → Option MetaRec
last_word id o [] = o
last_word id o (MetaLine.msg r ∷ ls) = last_word id (if r.id == id then some r else o) ls
last_word id o (MetaLine.del d ∷ ls) = last_word id (if d == id then none else o) ls
last_word id o (MetaLine.floor_line f ∷ ls) = last_word id o ls

-- The largest floor of the lines.
abbrev pub top_floor : ℕ → List MetaLine → ℕ
top_floor n [] = n
top_floor n (MetaLine.msg r ∷ ls) = top_floor n ls
top_floor n (MetaLine.del d ∷ ls) = top_floor n ls
top_floor n (MetaLine.floor_line f ∷ ls) = top_floor (max n f) ls

find_id-insert_live :
    (id : ℕ) (r : MetaRec) (ms : List MetaRec)
    → find_id id (insert_live r ms) ≡ (if r.id == id then some r else find_id id ms)
unfolding find_id insert_live
find_id-insert_live id r [] = refl
find_id-insert_live id r (m ∷ ms) = ground (arith, find_id-insert_live id r ms)

find_id-drop :
    (id d : ℕ) (ms : List MetaRec)
    → find_id id (keep (λ m. not (m.id == d)) ms) ≡ (if d == id then none else find_id id ms)
unfolding find_id keep
find_id-drop id d [] = elim (Bool-cases (d == id)) [ inl e ↦ rw e refl | inr e ↦ rw e refl ]
find_id-drop id d (m ∷ ms) = ground (arith, find_id-drop id d ms)

find_id-floor :
    (id n : ℕ) (ms : List MetaRec)
    → find_id id (keep (λ m. leb n m.id) ms) ≡ (if leb n id then find_id id ms else none)
unfolding find_id keep
find_id-floor id n [] = elim (Bool-cases (leb n id)) [ inl e ↦ rw e refl | inr e ↦ rw e refl ]
find_id-floor id n (m ∷ ms) = ground (arith, find_id-floor id n ms)

replay-last_word :
    (id : ℕ) (p : Replay) (ls : List MetaLine)
    → find_id id (Log.replay p ls).live ≡ last_word id (find_id id p.live) ls
unfolding Log.replay Log.replay_line
replay-last_word id p [] = refl
replay-last_word id p (MetaLine.msg r ∷ ls) =
    replay-last_word id (Log.replay_line p (MetaLine.msg r)) ls
    ∙ ap (λ o. last_word id o ls) (find_id-insert_live id r p.live)
replay-last_word id p (MetaLine.del d ∷ ls) =
    replay-last_word id (Log.replay_line p (MetaLine.del d)) ls
    ∙ ap (λ o. last_word id o ls) (find_id-drop id d p.live)
replay-last_word id p (MetaLine.floor_line f ∷ ls) =
    replay-last_word id (Log.replay_line p (MetaLine.floor_line f)) ls

replay-top_floor :
    (p : Replay) (ls : List MetaLine) → (Log.replay p ls).floor ≡ top_floor p.floor ls
unfolding Log.replay Log.replay_line
replay-top_floor p [] = refl
replay-top_floor p (MetaLine.msg r ∷ ls) = replay-top_floor (Log.replay_line p (MetaLine.msg r)) ls
replay-top_floor p (MetaLine.del d ∷ ls) = replay-top_floor (Log.replay_line p (MetaLine.del d)) ls
replay-top_floor p (MetaLine.floor_line f ∷ ls) =
    replay-top_floor (Log.replay_line p (MetaLine.floor_line f)) ls

nothing_found : (id : ℕ) → find_id id [] ≡ none
unfolding find_id
nothing_found id = refl

-- What is found under a number once the log is read again, before the limits are applied, is the last word of
-- its lines on it: the message last written and not deleted since, unless the number is below the
-- largest floor in the log.
pub replayed-find_id :
    (id : ℕ) (r : Log.Retention) (s : Segments)
    → find_id id (Log.replayed r s).index ≡ (
        if leb (top_floor 0 (Log.lines_of s (Segments.nums s))) id
        then last_word id none (Log.lines_of s (Segments.nums s))
        else none)
unfolding Log.replayed
replayed-find_id id r s =
    let ls = Log.lines_of s (Segments.nums s) in
    let p = Log.replay Log.no_lines ls in
    let found =
      replay-last_word id Log.no_lines ls ∙ ap (λ o. last_word id o ls) (nothing_found id) in
    find_id-floor id p.floor p.live
    ∙ ap (λ n. if leb n id then find_id id p.live else none) (replay-top_floor Log.no_lines ls)
    ∙ ap (λ o. if leb (top_floor 0 ls) id then o else none) found
