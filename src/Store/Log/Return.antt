-- ===== src/Store/Log/Return.antt =====
-- crates/s2l-store/src/lib.rs and seg.rs: the operations return, as long as the numbers of the segments leave
-- room.
use stmp2log.Prelude.{
  ℕ, ◌+◌, ◌^◌, ◌≤◌, ◌<◌, ◌≡◌, refl, ap, List, [], ◌∷◌, some, not, All, All-keep, ltb, length, ◌==◌,
  ==_iff, arith, Bool-cases, inl, inr,
}
use stmp2log.Prelude.Int.{ℤ}
use stmp2log.Prelude.Text.{Text}
use stmp2log.Store.Record.{MetaRec, MetaLine, BodyRec}
use stmp2log.Store.Segments
use stmp2log.Store.Segments.{
  Segments, Open, Json, Loc, Files, files_at, set_files, ensure_open, total,
}
use stmp2log.Store.Segments.Growth.{IsConsistent, ensure_open-IsReady}
use stmp2log.Store.Segments.Opening.{Room, All-Room_le, set_files-Room, ensure_open_returns}
use stmp2log.Store.Log
use stmp2log.Store.Log.{Inner, NewMessage, retained, drop_all, orphans}
use stmp2log.Store.Log.Steps.{IsValid}
use stmp2log.Store.Segments.Append.{append-IsWritten}

files_at-Room :
    (k n : ℕ) (fs : List (ℕ × Files)) (f : Files)
    → All (Room k) fs
    → files_at n fs ≡ some f
    → n + k < 2 ^ 32
unfolding files_at
files_at-Room k n [] f a h = cc
files_at-Room k n ((m, g) ∷ fs) f (b, a) h = elim (Bool-cases (m == n)) [
  | inl e ↦ let q = (==_iff m n).0 e in omega (arith, q, b)
  | inr e ↦ files_at-Room k n fs f a (rw e at h)
]

-- A line is written, and takes one number at most.
append_meta_returns :
    (k : ℕ) (line : MetaLine) (s : Segments)
    → k + 2 < 2 ^ 32
    → IsConsistent s
    → All (Room (k + 1)) s.files
    → (t : Segments) × (Segments.append_meta line s ≡ some t) × All (Room k) t.files
unfolding Segments.append_meta Segments.append_meta_open Segments.write_meta
append_meta_returns k line s l v a =
    let (u, e, left) = ensure_open_returns k 0 0 s (omega arith) l a in
    let r = ensure_open-IsReady Segments.open_fuel 0 s u v e in
    let (f, ef, _, _) = r.is_open in
    let g = Segments.add_line line (Segments.files_or_new (files_at r.cur.num u.files)) in
    let room = files_at-Room k r.cur.num u.files f left ef in
    (
      record u { files = set_files r.cur.num g u.files },
      rw e (ap (λ c. some (Segments.write_meta line u c)) r.is_cur),
      set_files-Room k r.cur.num g u.files room left,
    )

drop_all-Room :
    (k : ℕ) (ns : List ℕ) (s : Segments) → All (Room k) s.files → All (Room k) (drop_all ns s).files
unfolding drop_all Segments.drop_segment
drop_all-Room k [] s a = a
drop_all-Room k (n ∷ ns) s a =
    drop_all-Room k ns (Segments.drop_segment n s)
      (elim (Bool-cases (Segments.is_open_at n s.cur)) [
        | inl e ↦ rw e a
        | inr e ↦ rw e (All-keep (Room k) (λ f. not (f.0 == n)) s.files a)
      ])

enforce_returns :
    (k : ℕ) (now : ℤ) (i : Inner)
    → k + 2 < 2 ^ 32
    → IsConsistent i.segs
    → All (Room (k + 1)) i.segs.files
    → (j : Inner) × (Log.enforce now i ≡ some j) × All (Room k) j.segs.files
unfolding Log.enforce Log.after_line Log.reclaim
enforce_returns k now i l v a =
    let index = retained now i.retention i.index in
    let line = MetaLine.floor_line (Log.floor_of i.next_id index) in
    elim (Bool-cases (ltb (length index) (length i.index))) [
      | inr e ↦ (i, rw e refl, All-Room_le k (k + 1) i.segs.files (omega arith) a)
      | inl e ↦
          let (t, written, left) = append_meta_returns k line i.segs l v a in
          let gone = orphans index (Segments.nums t) in
          (
            record i {
              segs = drop_all gone t;
              index = index;
              floor = Log.floor_of i.next_id index;
            },
            rw e (rw written refl),
            drop_all-Room k gone t left,
          )
    ]

segments_append_returns :
    (k : ℕ) (json : Json) (atts : List (List ℕ)) (body : List (ℕ × ℕ) → BodyRec)
    (meta : Loc → MetaLine) (s : Segments)
    → total atts + 4096 ≤ Segments.max_body_bytes
    → k + 2 < 2 ^ 32
    → IsConsistent s
    → All (Room (k + 1)) s.files
    → (loc : Loc) × (t : Segments) × (Segments.append json atts body meta s ≡ some (loc, t))
      × All (Room k) t.files
unfolding Segments.append Segments.append_open Segments.write_open
segments_append_returns k json atts body meta s fits l v a =
    let (u, e, left) = ensure_open_returns k 0 (total atts + 4096) s fits l a in
    let r = ensure_open-IsReady Segments.open_fuel (total atts + 4096) s u v e in
    let (f, ef, _, _) = r.is_open in
    let g = Segments.files_or_new (files_at r.cur.num u.files) in
    let room = files_at-Room k r.cur.num u.files f left ef in
    (
      Segments.loc_of json atts body meta r.cur g,
      record {
        files = set_files r.cur.num (Segments.write_to json atts body meta r.cur g) u.files;
        cur = some (Segments.opened_after json atts body meta r.cur g);
      },
      rw e (rw r.is_cur refl),
      set_files-Room k r.cur.num (Segments.write_to json atts body meta r.cur g) u.files room left,
    )

-- A message whose attachments leave 4096 bytes of what a body file may hold is appended, if the numbers of the
-- segments leave room for two more.
pub append_returns :
    (json : Json) (encode : List ℕ → Text) (now : ℤ) (msg : NewMessage) (i : Inner)
    → IsValid i
    → All (Room 2) i.segs.files
    → total (Log.stored_atts msg.mail.attachments) + 4096 ≤ Segments.max_body_bytes
    → (m : MetaRec) × (j : Inner) × (Log.append json encode now msg i ≡ some (m, j))
unfolding Log.append Log.indexed Log.with_rec Log.with_new
append_returns json encode now msg i v a fits =
    let (loc, s, written, left) =
      segments_append_returns 1 json (Log.stored_atts msg.mail.attachments)
        (Log.body_of encode i.next_id msg) (λ l. MetaLine.msg (Log.meta_of i.next_id msg l)) i.segs
        fits (omega arith) v.consistent a in
    let consistent =
      (append-IsWritten json (Log.stored_atts msg.mail.attachments)
        (Log.body_of encode i.next_id msg) (λ l. MetaLine.msg (Log.meta_of i.next_id msg l)) i.segs
        loc s v.consistent written).consistent in
    let (j, e, _) =
      enforce_returns 0 now (Log.with_new msg i loc s) (omega arith) consistent left in
    (Log.meta_of i.next_id msg loc, j, rw written (rw e refl))
