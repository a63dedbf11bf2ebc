-- ===== src/Store/Log/Cleared.antt =====
-- crates/s2l-store/src/lib.rs: what `clear` leaves, in memory and in the files that the next start reads.
use stmp2log.Prelude.{
  ℕ, ◌≤◌, ◌<◌, max, ◌≡◌, refl, sym, ap, ◌∙◌, subst, List, [], ◌∷◌, ◌++◌, map, none, some, true,
  false, any, leb, length, ◌==◌, ==_iff, arith, Bool-cases, Option-cases, inl, inr, some_inj,
}
use stmp2log.Prelude.Int.{ℤ}
use stmp2log.Store.Record.{MetaRec, MetaLine}
use stmp2log.Store.Segments
use stmp2log.Store.Segments.{Segments, Files, Open, files_at}
use stmp2log.Store.Segments.Growth.{files_at-set_files, ensure_open-IsReady}
use stmp2log.Store.Segments.ReadBack.{files_at-keep, is_open_at-other}
use stmp2log.Store.Log
use stmp2log.Store.Log.{Inner, Retention, find_id}
use stmp2log.Store.Log.OnDisk.{after_line-IsNoted, append_meta-Later}
use stmp2log.Store.Log.LastWord.{replayed-find_id, top_floor}
use stmp2log.Store.Log.Retain.{enforce-IsEnforced, retained-IsSuffix}
use stmp2log.Store.Log.Steps.{IsValid, counted-some}

top_floor-append :
    (n : ℕ) (xs ys : List MetaLine) → top_floor n (xs ++ ys) ≡ top_floor (top_floor n xs) ys
top_floor-append n [] ys = refl
top_floor-append n (MetaLine.msg r ∷ xs) ys = top_floor-append n xs ys
top_floor-append n (MetaLine.del d ∷ xs) ys = top_floor-append n xs ys
top_floor-append n (MetaLine.floor_line f ∷ xs) ys = top_floor-append (max n f) xs ys

top_floor-grows : (k n : ℕ) (xs : List MetaLine) → k ≤ n → k ≤ top_floor n xs
top_floor-grows k n [] h = h
top_floor-grows k n (MetaLine.msg r ∷ xs) h = top_floor-grows k n xs h
top_floor-grows k n (MetaLine.del d ∷ xs) h = top_floor-grows k n xs h
top_floor-grows k n (MetaLine.floor_line f ∷ xs) h =
    top_floor-grows k (max n f) xs (omega (arith, h))

-- The files of the segment end with the line of the floor.
abbrev EndsWith : ℕ → ℕ → List (ℕ × Files) → Type 0
EndsWith n floor fs =
    (f : Files) × (old : List MetaLine) × (files_at n fs ≡ some f)
    × (f.meta ≡ old ++ MetaLine.floor_line floor ∷ [])

meta-top_floor :
    (n floor : ℕ) (old : List MetaLine)
    → floor ≤ top_floor n (old ++ MetaLine.floor_line floor ∷ [])
meta-top_floor n floor old =
    rw (top_floor-append n old (MetaLine.floor_line floor ∷ [])) (omega arith)

read_meta-at :
    (k : ℕ) (s : Segments) (f : Files)
    → files_at k s.files ≡ some f
    → Segments.read_meta s k ≡ f.meta
unfolding Segments.read_meta
read_meta-at k s f e = ap (λ o. elim o as (λ x. List MetaLine) [ none ↦ [] | some g ↦ g.meta ]) e

lines_of-top_floor :
    (s : Segments) (num floor n : ℕ) (ns : List ℕ)
    → any (λ k. k == num) ns ≡ true
    → EndsWith num floor s.files
    → floor ≤ top_floor n (Log.lines_of s ns)
unfolding Log.lines_of Segments.read_meta any
lines_of-top_floor s num floor n [] h e = cc
lines_of-top_floor s num floor n (k ∷ ns) h (f, old, e, q) = elim (Bool-cases (k == num)) [
  | inl here ↦
      let same : k ≡ num = (==_iff k num).0 here in
      let there : files_at k s.files ≡ some f = rw same e in
      let read : Segments.read_meta s k ≡ old ++ MetaLine.floor_line floor ∷ [] =
        read_meta-at k s f there ∙ q in
      rw (top_floor-append n (Segments.read_meta s k) (Log.lines_of s ns)) (
        top_floor-grows floor (top_floor n (Segments.read_meta s k)) (Log.lines_of s ns)
          (subst (λ x. floor ≤ top_floor n x) (sym read) (meta-top_floor n floor old)))
  | inr other ↦
      let later : any (λ m. m == num) ns ≡ true = rw other at h in
      rw (top_floor-append n (Segments.read_meta s k) (Log.lines_of s ns)) (
        lines_of-top_floor s num floor (top_floor n (Segments.read_meta s k)) ns later
          (f, old, e, q))
]

files_at-any :
    (num : ℕ) (f : Files) (fs : List (ℕ × Files))
    → files_at num fs ≡ some f
    → any (λ k. k == num) (map (λ e. e.0) fs) ≡ true
unfolding files_at any
files_at-any num f [] h = cc
files_at-any num f ((m, g) ∷ fs) h = elim (Bool-cases (m == num)) [
  | inl e ↦ rw e refl
  | inr e ↦ rw e (files_at-any num f fs (rw e at h))
]

-- The open segment ends with the line.
record IsMarked (floor : ℕ) (s : Segments) : Type 0 where
  cur : Open
  is_cur : s.cur ≡ some cur
  ends : EndsWith cur.num floor s.files

drop_segment-IsMarked :
    (n floor : ℕ) (s : Segments) → IsMarked floor s → IsMarked floor (Segments.drop_segment n s)
unfolding Segments.drop_segment
drop_segment-IsMarked n floor s v = elim (Bool-cases (Segments.is_open_at n s.cur)) [
  | inl now ↦ rw now v
  | inr closed ↦
      let (f, old, e, q) = v.ends in
      let other = is_open_at-other n v.cur s.cur v.is_cur closed in
      rw closed (record {
        cur = v.cur;
        is_cur = v.is_cur;
        ends = (f, old, files_at-keep n v.cur.num s.files other ∙ e, q);
      })
]

drop_all-IsMarked :
    (floor : ℕ) (ns : List ℕ) (s : Segments) → IsMarked floor s → IsMarked floor (Log.drop_all ns s)
unfolding Log.drop_all
drop_all-IsMarked floor [] s v = v
drop_all-IsMarked floor (n ∷ ns) s v =
    drop_all-IsMarked floor ns (Segments.drop_segment n s) (drop_segment-IsMarked n floor s v)

write_meta-IsMarked :
    (floor : ℕ) (s : Segments) (c : Open)
    → s.cur ≡ some c
    → IsMarked floor (Segments.write_meta (MetaLine.floor_line floor) s (some c))
unfolding Segments.write_meta Segments.add_line
write_meta-IsMarked floor s c e =
    let old = Segments.files_or_new (files_at c.num s.files) in
    let f = Segments.add_line (MetaLine.floor_line floor) old in
    let here : (c.num == c.num) ≡ true = ground arith in
    record {
      cur = c;
      is_cur = e;
      ends = (f, old.meta, files_at-set_files c.num c.num f s.files ∙ rw here refl, refl);
    }

append_meta-IsMarked :
    (floor : ℕ) (i : Inner) (t : Segments)
    → IsValid i
    → Segments.append_meta (MetaLine.floor_line floor) i.segs ≡ some t
    → IsMarked floor t
unfolding Segments.append_meta Segments.append_meta_open
append_meta-IsMarked floor i t v h =
    let o = Segments.ensure_open Segments.open_fuel 0 i.segs in
    let line = MetaLine.floor_line floor in
    elim (Option-cases o) [
      | inl e ↦ cc (rw e at h)
      | inr (s, e) ↦
          let ready = ensure_open-IsReady Segments.open_fuel 0 i.segs s v.consistent e in
          let q : some (Segments.write_meta line s s.cur) ≡ some t = rw e at h in
          let w : some (Segments.write_meta line s (some ready.cur)) ≡ some t =
            subst (λ x. some (Segments.write_meta line s x) ≡ some t) ready.is_cur q in
          subst (IsMarked floor) (some_inj (Segments.write_meta line s (some ready.cur)) t w)
            (write_meta-IsMarked floor s ready.cur ready.is_cur)
    ]

after_line-IsMarked :
    (floor : ℕ) (i k j : Inner)
    → IsValid i
    → Log.after_line k (Segments.append_meta (MetaLine.floor_line floor) i.segs) ≡ some j
    → IsMarked floor j.segs
unfolding Log.after_line Log.reclaim
after_line-IsMarked floor i k j v h =
    elim (Option-cases (Segments.append_meta (MetaLine.floor_line floor) i.segs)) [
      | inl e ↦ cc (rw e at h)
      | inr (t, e) ↦
          let left = Log.drop_all (Log.orphans k.index (Segments.nums t)) t in
          let after : Inner = record k { segs = left } in
          let q : some after ≡ some j = rw e at h in
          subst (λ r. IsMarked floor r.segs) (some_inj after j q)
            (drop_all-IsMarked floor (Log.orphans k.index (Segments.nums t)) t
              (append_meta-IsMarked floor i t v e))
    ]

-- What is under the floor of an open segment is not found once the files are read again.
IsMarked-find_id :
    (id floor : ℕ) (r : Retention) (s : Segments)
    → id < floor
    → IsMarked floor s
    → find_id id (Log.replayed r (Segments.open_dir s.files)).index ≡ none
unfolding Segments.open_dir Segments.nums
IsMarked-find_id id floor r s below v =
    let (f, old, e, q) = v.ends in
    let again = Segments.open_dir s.files in
    let ls = Log.lines_of again (Segments.nums again) in
    let high : floor ≤ top_floor 0 ls =
      lines_of-top_floor again v.cur.num floor 0 (Segments.nums again)
        (files_at-any v.cur.num f s.files e) (f, old, e, q) in
    let out : leb (top_floor 0 ls) id ≡ false = ground (arith, high, below) in
    replayed-find_id id r again ∙ rw out refl

find_id-back :
    (id : ℕ) (front ms : List MetaRec) → find_id id (front ++ ms) ≡ none → find_id id ms ≡ none
unfolding find_id
find_id-back id [] ms h = h
find_id-back id (m ∷ front) ms h = elim (Bool-cases (m.id == id)) [
  | inl e ↦ cc (rw e at h)
  | inr e ↦ find_id-back id front ms (rw e at h)
]

open_store-find_id :
    (now : ℤ) (r : Retention) (id : ℕ) (files : List (ℕ × Files)) (k : Inner)
    → find_id id (Log.replayed r (Segments.open_dir files)).index ≡ none
    → Log.open_store now r files ≡ some k
    → find_id id k.index ≡ none
unfolding Log.open_store Log.replayed Segments.open_dir
open_store-find_id now r id files k gone h =
    let i = Log.replayed r (Segments.open_dir files) in
    let e = enforce-IsEnforced now i k (λ c q. cc) h in
    let (front, q) = retained-IsSuffix now r i.index in
    let none_left : find_id id (front ++ Log.retained now r i.index) ≡ none = rw q at gone in
    rw e.index (find_id-back id front (Log.retained now r i.index) none_left)

-- After `clear` no message is there, the count is that of all that were, and the next number is the same; and
-- a store that is opened again on the files that are left, with any limits, finds none of the messages
-- that were there before.
pub clear_lem :
    (i j k : Inner) (n id : ℕ) (now : ℤ) (r : Retention)
    → IsValid i
    → id < i.next_id
    → Log.clear i ≡ some (n, j)
    → Log.open_store now r j.segs.files ≡ some k
    → (j.index ≡ []) × (n ≡ length i.index) × (j.next_id ≡ i.next_id) × (find_id id k.index ≡ none)
unfolding Log.clear
clear_lem i j k n id now r v below h again =
    let left : Inner = record i { index = []; floor = i.next_id } in
    let line = MetaLine.floor_line i.next_id in
    let (q, count) =
      counted-some (length i.index) n (Log.after_line left (Segments.append_meta line i.segs)) j
        h in
    let w =
      after_line-IsNoted left i.segs (Segments.append_meta line i.segs) j v.consistent
        (append_meta-Later line i.segs) q in
    let marked = after_line-IsMarked i.next_id i left j v q in
    (
      w.index,
      count,
      w.next_id,
      open_store-find_id now r id j.segs.files k
          (IsMarked-find_id id i.next_id r j.segs below marked) again,
    )
