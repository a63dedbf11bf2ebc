-- ===== src/Store/Log/Steps.antt =====
-- crates/s2l-store/src/lib.rs: the operations as steps of the store, and what each of them keeps.
use stmp2log.Prelude.{
  ℕ, ◌+◌, ◌^◌, ◌-◌, ◌≤◌, ◌<◌, ◌≡◌, refl, sym, ap, ◌∙◌, subst, List, [], Option, none, some, Bool,
  not, keep, All-keep, ltb, length, some_inj, arith, Bool-cases, inl, inr,
}
use stmp2log.Prelude.Int.{ℤ}
use stmp2log.Prelude.Text.{Text}
use stmp2log.Store.Record.{MetaRec, MetaLine}
use stmp2log.Store.Segments
use stmp2log.Store.Segments.{Segments, Json, Loc}
use stmp2log.Store.Segments.Growth.{IsConsistent}
use stmp2log.Store.Segments.ReadBack.{Later, Later-trans}
use stmp2log.Store.Log
use stmp2log.Store.Log.{Inner, Retention, NewMessage, find_id, regroup, retained, has_id}
use stmp2log.Store.Log.Index.{Below, IsIndex, IsAscending-keep}
use stmp2log.Store.Log.OnDisk.{
  InUse, IsNoted, after_line-IsNoted, append_meta-Later, write_dels-Later,
}
use stmp2log.Store.Log.Retain.{retained-IsSuffix, IsIndex-IsSuffix, enforce-IsEnforced}
use stmp2log.Store.Log.Find.{IsSame, IsSame-refl, find_id-keep, find_id-IsSuffix}

-- The index is sorted, its numbers are below the next, and the lengths kept for the open segment are right.
pub record IsValid (i : Inner) : Type 0 where
  pub index : IsIndex i.next_id i.index
  pub consistent : IsConsistent i.segs

-- An operation that returns. The numbers of messages have not run out where one is appended.
pub data Step : Inner → Inner → Type 0 where
  appended :
      (i j : Inner) (json : Json) (encode : List ℕ → Text) (now : ℤ) (msg : NewMessage)
      (m : MetaRec)
      → i.next_id + 1 < 2 ^ 64
      → Log.append json encode now msg i ≡ some (m, j)
      → Step i j
  deleted : (i j : Inner) (ids : List ℕ) (n : ℕ) → Log.delete ids i ≡ some (n, j) → Step i j
  cleared : (i j : Inner) (n : ℕ) → Log.clear i ≡ some (n, j) → Step i j
  moved :
      (i j : Inner) (id : ℕ) (group : Option ℕ) (b : Bool)
      → Log.set_group id group i ≡ some (b, j)
      → Step i j
  limited :
      (i j : Inner) (now : ℤ) (r : Retention) (n : ℕ)
      → Log.set_retention now r i ≡ some (n, j)
      → Step i j

-- What an operation keeps: the older messages that are left are where they were, and the files of the
-- messages that are left stay.
pub record Follows (i j : Inner) : Type 0 where
  pub index : IsIndex j.next_id j.index
  pub consistent : IsConsistent j.segs
  pub next : i.next_id ≤ j.next_id
  pub later : (seg : ℕ) → InUse seg j.index → Later seg i.segs j.segs
  pub same :
      (id : ℕ) (m : MetaRec)
      → id < i.next_id
      → find_id id j.index ≡ some m
      → (k : MetaRec) × (find_id id i.index ≡ some k) × IsSame k m

pub Follows-refl : (i : Inner) → IsValid i → Follows i i
Follows-refl i v = record {
  index = v.index;
  consistent = v.consistent;
  next = omega arith;
  later = λ seg u. Later.stay i.segs;
  same = λ id m l h. (m, h, IsSame-refl m);
}

-- After lines were written for an index that keeps the numbers and places.
noted-Follows :
    (i k j : Inner)
    → IsNoted k i.segs j
    → k.next_id ≡ i.next_id
    → IsIndex i.next_id k.index
    → ((id : ℕ) (m : MetaRec)
        → find_id id k.index ≡ some m
        → (n : MetaRec) × (find_id id i.index ≡ some n) × IsSame n m)
    → Follows i j
noted-Follows i k j n same_next x f = record {
  index = rw n.next_id (rw n.index (rw same_next x));
  consistent = n.consistent;
  next = let q = n.next_id ∙ same_next in omega (arith, q);
  later = λ seg u. n.later seg (subst (InUse seg) n.index u);
  same = λ id m l h. f id m (subst (λ ms. find_id id ms ≡ some m) n.index h);
}

pub counted-some :
    (n k : ℕ) (o : Option Inner) (j : Inner)
    → Log.counted n o ≡ some (k, j)
    → (o ≡ some j) × (k ≡ n)
unfolding Log.counted
counted-some n k none j h = cc
counted-some n k (some i) j h =
    let same = some_inj (n, i) (k, j) h in (ap (λ p. some p.1) same, sym (ap (λ p. p.0) same))

pub clear-Follows : (i j : Inner) (n : ℕ) → IsValid i → Log.clear i ≡ some (n, j) → Follows i j
unfolding Log.clear find_id
clear-Follows i j n v h =
    let k : Inner = record i { index = []; floor = i.next_id } in
    let line = MetaLine.floor_line i.next_id in
    let (q, _) =
      counted-some (length i.index) n (Log.after_line k (Segments.append_meta line i.segs)) j h in
    let w =
      after_line-IsNoted k i.segs (Segments.append_meta line i.segs) j v.consistent
        (append_meta-Later line i.segs) q in
    noted-Follows i k j w refl (tt, tt) (λ id m e. cc)

pub delete-Follows :
    (ids : List ℕ) (i j : Inner) (n : ℕ) → IsValid i → Log.delete ids i ≡ some (n, j) → Follows i j
unfolding Log.delete
delete-Follows ids i j n v h =
    let p : MetaRec → Bool = λ m. not (has_id ids m) in
    let k : Inner = record i { index = keep p i.index } in
    let removed = length i.index - length (keep p i.index) in
    let (a, b) = v.index in
    let x : IsIndex i.next_id k.index =
      (IsAscending-keep p i.index a, All-keep (Below i.next_id) p i.index b) in
    let places : (id : ℕ) (m : MetaRec)
        → find_id id k.index ≡ some m
        → (c : MetaRec) × (find_id id i.index ≡ some c) × IsSame c m =
      λ id m e. (m, find_id-keep id p i.index m a e, IsSame-refl m) in
    elim (Bool-cases (ltb 0 removed)) [
      | inl some_gone ↦
          let dels = Log.write_dels ids (some i.segs) in
          let (q, _) = counted-some removed n (Log.after_line k dels) j (rw some_gone at h) in
          let w = after_line-IsNoted k i.segs dels j v.consistent (write_dels-Later ids i.segs) q in
          noted-Follows i k j w refl x places
      | inr none_gone ↦
          let same = some_inj (removed, k) (n, j) (rw none_gone at h) in
          subst (Follows i) (ap (λ r. r.1) same) (record {
            index = x;
            consistent = v.consistent;
            next = omega arith;
            later = λ seg u. Later.stay i.segs;
            same = λ id m l e. places id m e;
          })
    ]

pub enforced-Follows :
    (now : ℤ) (i k j : Inner)
    → IsConsistent k.segs
    → Log.enforce now k ≡ some j
    → IsIndex k.next_id k.index
    → i.next_id ≤ k.next_id
    → ((seg : ℕ) → Later seg i.segs k.segs)
    → ((id : ℕ) (m : MetaRec)
        → id < i.next_id
        → find_id id k.index ≡ some m
        → (n : MetaRec) × (find_id id i.index ≡ some n) × IsSame n m)
    → Follows i j
enforced-Follows now i k j v h (a, b) le w f =
    let e = enforce-IsEnforced now k j v h in
    let left = retained now k.retention k.index in
    let suffix = retained-IsSuffix now k.retention k.index in
    record {
      index = rw e.next_id (rw e.index (IsIndex-IsSuffix k.next_id left k.index suffix (a, b)));
      consistent = e.consistent;
      next = let q = e.next_id in omega (arith, q, le);
      later = λ seg u. Later-trans seg i.segs k.segs j.segs (w seg) (e.later seg u);
      same = λ id m l x. f id m l (
          find_id-IsSuffix id left k.index m suffix a
            (subst (λ ms. find_id id ms ≡ some m) e.index x));
    }
