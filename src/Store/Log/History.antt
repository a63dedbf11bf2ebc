-- ===== src/Store/Log/History.antt =====
-- crates/s2l-store/src/lib.rs: what holds of the store through any operations, one after the other.
use stmp2log.Prelude.{
  ℕ, ◌-◌, ◌≤◌, ◌<◌, ◌≡◌, refl, sym, ap, ◌∙◌, subst, List, [], ◌∷◌, Option, none, some, Bool, true,
  false, All, length, ◌==◌, some_inj, arith, Bool-cases, Option-cases, inl, inr,
}
use stmp2log.Prelude.Int.{ℤ}
use stmp2log.Store.Record.{MetaRec, MetaLine}
use stmp2log.Store.Segments
use stmp2log.Store.Segments.{Segments, Json, Loc}
use stmp2log.Store.Segments.Growth.{IsReady-IsConsistent}
use stmp2log.Store.Segments.ReadBack.{Later, Later-trans, append_meta-IsReady}
use stmp2log.Store.Log
use stmp2log.Store.Log.{Inner, Retention, NewMessage, find_id, regroup, retained, has_id}
use stmp2log.Store.Log.Index.{IsAscending, IsIndex}
use stmp2log.Store.Log.OnDisk.{InUse, append_meta-Later}
use stmp2log.Store.Log.Find.{IsSame, IsSame-refl, IsSame-trans, find_id-InUse, find_id-regroup}
use stmp2log.Store.Log.Steps.{
  IsValid, Step, Follows, Follows-refl, clear-Follows, delete-Follows, enforced-Follows,
}
use stmp2log.Store.Log.Appending.{append-Follows}

grouped-some :
    (k : Inner) (o : Option Segments) (b : Bool) (j : Inner)
    → Log.grouped k o ≡ some (b, j)
    → (s : Segments) × (o ≡ some s) × (j ≡ record k { segs = s })
unfolding Log.grouped
grouped-some k none b j h = cc
grouped-some k (some s) b j h =
    let l : Inner = record k { segs = s } in
    (s, refl, sym (ap (λ p. p.1) (some_inj (true, l) (b, j) h)))

All-regroup {ℓ} :
    (P : ℕ → Type ℓ) (id : ℕ) (group : Option ℕ) (ms : List MetaRec)
    → All (λ m. P m.id) ms
    → All (λ m. P m.id) (regroup id group ms)
unfolding regroup
All-regroup P id group [] a = a
All-regroup P id group (m ∷ ms) (b, a) = elim (Bool-cases (m.id == id)) [
  | inl e ↦ rw e (b, a)
  | inr e ↦ rw e (b, All-regroup P id group ms a)
]

regroup-IsAscending :
    (id : ℕ) (group : Option ℕ) (ms : List MetaRec)
    → IsAscending ms
    → IsAscending (regroup id group ms)
unfolding regroup
regroup-IsAscending id group [] h = tt
regroup-IsAscending id group (m ∷ ms) (a, h) = elim (Bool-cases (m.id == id)) [
  | inl e ↦ rw e (a, h)
  | inr e ↦ rw e (All-regroup (λ k. m.id < k) id group ms a, regroup-IsAscending id group ms h)
]

regroup-IsIndex :
    (n id : ℕ) (group : Option ℕ) (ms : List MetaRec)
    → IsIndex n ms
    → IsIndex n (regroup id group ms)
regroup-IsIndex n id group ms (a, b) =
    (regroup-IsAscending id group ms a, All-regroup (λ k. k < n) id group ms b)

set_group-Follows :
    (id : ℕ) (group : Option ℕ) (i j : Inner) (b : Bool)
    → IsValid i
    → Log.set_group id group i ≡ some (b, j)
    → Follows i j
unfolding Log.set_group Log.set_found
set_group-Follows id group i j b v h = elim (Option-cases (find_id id i.index)) [
  | inl e ↦
      let q : some (false, i) ≡ some (b, j) = rw e at h in
      subst (Follows i) (ap (λ p. p.1) (some_inj (false, i) (b, j) q)) (Follows-refl i v)
  | inr (m, e) ↦
      let k : Inner = record i { index = regroup id group i.index } in
      let line = MetaLine.msg (record m { group = group }) in
      let o = Segments.append_meta line i.segs in
      elim (Bool-cases (Log.group_eq m.group group)) [
        | inl as_is ↦
            let q : some (true, i) ≡ some (b, j) = rw as_is at (rw e at h) in
            subst (Follows i) (ap (λ p. p.1) (some_inj (true, i) (b, j) q)) (Follows-refl i v)
        | inr other ↦
            let q : Log.grouped k o ≡ some (b, j) = rw other at (rw e at h) in
            let (s, f, x) = grouped-some k o b j q in
            let (a, _) = v.index in
            rw x (record {
              index = regroup-IsIndex i.next_id id group i.index v.index;
              consistent =
                  IsReady-IsConsistent i.segs s (append_meta-IsReady line i.segs s v.consistent f);
              next = omega arith;
              later = λ seg u. append_meta-Later line i.segs s f seg;
              same = λ c n l g. find_id-regroup c id group i.index n g;
            })
      ]
]

set_retention-Follows :
    (now : ℤ) (r : Retention) (i j : Inner) (n : ℕ)
    → IsValid i
    → Log.set_retention now r i ≡ some (n, j)
    → Follows i j
unfolding Log.set_retention Log.fewer
set_retention-Follows now r i j n v h =
    let k : Inner = record i { retention = r } in
    elim (Option-cases (Log.enforce now k)) [
      | inl e ↦ let q : Log.fewer (length i.index) none ≡ some (n, j) = rw e at h in cc
      | inr (l, e) ↦
          let q : some (length i.index - length l.index, l) ≡ some (n, j) = rw e at h in
          let same = some_inj (length i.index - length l.index, l) (n, j) q in
          enforced-Follows now i k j v.consistent (e ∙ ap (λ p. some p.1) same) v.index
            (omega arith) (λ seg. Later.stay i.segs) (λ id m l f. (m, f, IsSame-refl m))
    ]

pub Step-Follows : (i j : Inner) → IsValid i → Step i j → Follows i j
Step-Follows _ _ v (Step.appended i j json encode now msg m room h) =
    append-Follows json encode now msg i m j v room h
Step-Follows _ _ v (Step.deleted i j ids n h) = delete-Follows ids i j n v h
Step-Follows _ _ v (Step.cleared i j n h) = clear-Follows i j n v h
Step-Follows _ _ v (Step.moved i j id group b h) = set_group-Follows id group i j b v h
Step-Follows _ _ v (Step.limited i j now r n h) = set_retention-Follows now r i j n v h

-- Operations one after the other.
pub data Run : Inner → Inner → Type 0 where
  done : (i : Inner) → Run i i
  next : (i j k : Inner) → Step i j → Run j k → Run i k

-- What operations one after the other keep.
pub record Endures (i j : Inner) : Type 0 where
  pub valid : IsValid j
  pub next : i.next_id ≤ j.next_id
  pub same :
      (id : ℕ) (m : MetaRec)
      → id < i.next_id
      → find_id id j.index ≡ some m
      → (k : MetaRec) × (find_id id i.index ≡ some k) × IsSame k m × Later m.seg i.segs j.segs

-- Any operations keep the index sorted by the numbers of the messages, which are all below the next one,
-- and no number is given twice. A message that was there before and still is has the place of its
-- body where it was, and its segment was not removed.
pub Run-Endures : (i j : Inner) → IsValid i → Run i j → Endures i j
Run-Endures _ _ v (Run.done i) = record {
  valid = v;
  next = omega arith;
  same = λ id m l h. (m, h, IsSame-refl m, Later.stay i.segs);
}
Run-Endures _ _ v (Run.next i j k s r) =
    let a = Step-Follows i j v s in
    let b = Run-Endures j k (record { index = a.index; consistent = a.consistent }) r in
    record {
      valid = b.valid;
      next = let p = a.next in let q = b.next in omega (arith, p, q);
      same = λ id m l h.
          let older : id < j.next_id = let p = a.next in omega (arith, p, l) in
          let (n, f, x, t) = b.same id m older h in
          let (c, g, y) = a.same id n l f in
          let kept : InUse m.seg j.index =
            subst (λ z. InUse z j.index) (sym x.seg) (find_id-InUse id j.index n f) in
          (
            c,
            g,
            IsSame-trans c n m y x,
            Later-trans m.seg i.segs j.segs k.segs (a.later m.seg kept) t,
          );
    }
