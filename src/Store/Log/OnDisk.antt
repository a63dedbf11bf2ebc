-- ===== src/Store/Log/OnDisk.antt =====
-- crates/s2l-store/src/lib.rs: what the operations do to the files. The segments that messages are in stay.
use stmp2log.Prelude.{
  ℕ, ◌≡◌, refl, subst, List, [], ◌∷◌, Option, none, some, true, false, any, All, keep, ◌==◌, ==_iff,
  some_inj, Bool-cases, Option-cases, inl, inr,
}
use stmp2log.Store.Record.{MetaRec, MetaLine}
use stmp2log.Store.Segments
use stmp2log.Store.Segments.{Segments}
use stmp2log.Store.Segments.Growth.{IsConsistent}
use stmp2log.Store.Segments.ReadBack.{
  Later, Later-trans, Later-IsConsistent, drop_segment-IsConsistent,
}
use stmp2log.Store.Log
use stmp2log.Store.Log.{Inner, drop_all, orphans}

-- A message is in the segment.
abbrev pub InUse : ℕ → List MetaRec → Type 0
InUse seg index = any (λ m. m.seg == seg) index ≡ true

abbrev NotAt : ℕ → ℕ → Type 0
NotAt seg n = (n == seg) ≡ false

orphans-NotAt :
    (seg : ℕ) (index : List MetaRec) (ns : List ℕ)
    → InUse seg index
    → All (NotAt seg) (orphans index ns)
unfolding orphans keep
orphans-NotAt seg index [] u = tt
orphans-NotAt seg index (n ∷ ns) u = elim (Bool-cases (any (λ m. m.seg == n) index)) [
  | inl e ↦ rw e (orphans-NotAt seg index ns u)
  | inr e ↦
      let other : (n == seg) ≡ false = elim (Bool-cases (n == seg)) [
        | inl same ↦ let q = (==_iff n seg).0 same in cc (u, rw q at e)
        | inr o ↦ o
      ] in
      rw e (other, orphans-NotAt seg index ns u)
]

drop_all-Later :
    (seg : ℕ) (ns : List ℕ) (s : Segments) → All (NotAt seg) ns → Later seg s (drop_all ns s)
unfolding drop_all
drop_all-Later seg [] s a = Later.stay s
drop_all-Later seg (n ∷ ns) s (o, a) =
    Later.dropped s (drop_all ns (Segments.drop_segment n s)) n o
      (drop_all-Later seg ns (Segments.drop_segment n s) a)

-- What is left after lines were written and the segments without messages removed.
pub record IsNoted (i : Inner) (s : Segments) (j : Inner) : Type 0 where
  pub index : j.index ≡ i.index
  pub next_id : j.next_id ≡ i.next_id
  pub floor : j.floor ≡ i.floor
  pub retention : j.retention ≡ i.retention
  pub later : (seg : ℕ) → InUse seg i.index → Later seg s j.segs
  pub consistent : IsConsistent j.segs

drop_all-IsConsistent : (ns : List ℕ) (s : Segments) → IsConsistent s → IsConsistent (drop_all ns s)
unfolding drop_all
drop_all-IsConsistent [] s v = v
drop_all-IsConsistent (n ∷ ns) s v =
    drop_all-IsConsistent ns (Segments.drop_segment n s) (drop_segment-IsConsistent n s v)

-- Any writes that drop no segment, and the removal after them.
pub after_line-IsNoted :
    (i : Inner) (s : Segments) (o : Option Segments) (j : Inner)
    → IsConsistent s
    → ((t : Segments) → o ≡ some t → (seg : ℕ) → Later seg s t)
    → Log.after_line i o ≡ some j
    → IsNoted i s j
unfolding Log.after_line Log.reclaim
after_line-IsNoted i s none j v w h = cc
after_line-IsNoted i s (some t) j v w h =
    let later = w t refl in
    let gone = orphans i.index (Segments.nums t) in
    let k : Inner = record i { segs = drop_all gone t } in
    let noted : IsNoted i s k = record {
      index = refl;
      next_id = refl;
      floor = refl;
      retention = refl;
      later = λ seg u.
          Later-trans seg s t (drop_all gone t) (later seg)
            (drop_all-Later seg gone t (orphans-NotAt seg i.index (Segments.nums t) u));
      consistent = drop_all-IsConsistent gone t (Later-IsConsistent 0 s t v (later 0));
    } in
    subst (IsNoted i s) (some_inj k j h) noted

pub append_meta-Later :
    (line : MetaLine) (s t : Segments)
    → Segments.append_meta line s ≡ some t
    → (seg : ℕ) → Later seg s t
append_meta-Later line s t h seg = Later.noted s t t line h (Later.stay t)

write_dels-none : (ids : List ℕ) → Log.write_dels ids none ≡ none
unfolding Log.write_dels
write_dels-none [] = refl
write_dels-none (id ∷ ids) = refl

pub write_dels-Later :
    (ids : List ℕ) (s t : Segments)
    → Log.write_dels ids (some s) ≡ some t
    → (seg : ℕ) → Later seg s t
unfolding Log.write_dels
write_dels-Later [] s t h seg = subst (Later seg s) (some_inj s t h) (Later.stay s)
write_dels-Later (id ∷ ids) s t h seg =
    elim (Option-cases (Segments.append_meta (MetaLine.del id) s)) [
      | inl e ↦ let q : Log.write_dels ids none ≡ some t = rw e at h in cc (write_dels-none ids, q)
      | inr (u, e) ↦
          let q : Log.write_dels ids (some u) ≡ some t = rw e at h in
          Later.noted s u t (MetaLine.del id) e (write_dels-Later ids u t q seg)
    ]
