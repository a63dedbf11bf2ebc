-- ===== src/Store/Log/Find.antt =====
-- crates/s2l-store/src/lib.rs: a message is found by its number, and where its body is does not change.
use stmp2log.Prelude.{
  ℕ, ◌<◌, ◌≡◌, refl, sym, ap, ◌∙◌, subst, List, [], ◌∷◌, ◌++◌, Option, some, Bool, true, false, any,
  keep, All, ◌==◌, ==_iff, ==_refl, some_inj, arith, Bool-cases, inl, inr,
}
use stmp2log.Store.Record.{MetaRec}
use stmp2log.Store.Log.{find_id, regroup}
use stmp2log.Store.Log.Index.{Below, Above, IsAscending}
use stmp2log.Store.Log.OnDisk.{InUse}
use stmp2log.Store.Log.Retain.{IsSuffix}

pub find_id-All {ℓ} :
    (P : MetaRec → Type ℓ) (id : ℕ) (ms : List MetaRec) (m : MetaRec)
    → All P ms
    → find_id id ms ≡ some m
    → P m
unfolding find_id
find_id-All P id [] m a h = cc
find_id-All P id (x ∷ ms) m (b, a) h = elim (Bool-cases (x.id == id)) [
  | inl e ↦ let same = some_inj x m (rw e at h) in subst P same b
  | inr e ↦ find_id-All P id ms m a (rw e at h)
]

pub find_id-id : (id : ℕ) (ms : List MetaRec) (m : MetaRec) → find_id id ms ≡ some m → m.id ≡ id
unfolding find_id
find_id-id id [] m h = cc
find_id-id id (x ∷ ms) m h = elim (Bool-cases (x.id == id)) [
  | inl e ↦ let same = some_inj x m (rw e at h) in sym (ap (λ y. y.id) same) ∙ (==_iff x.id id).0 e
  | inr e ↦ find_id-id id ms m (rw e at h)
]

pub find_id-InUse :
    (id : ℕ) (ms : List MetaRec) (m : MetaRec) → find_id id ms ≡ some m → InUse m.seg ms
unfolding find_id any
find_id-InUse id [] m h = cc
find_id-InUse id (x ∷ ms) m h = elim (Bool-cases (x.id == id)) [
  | inl e ↦
      let same = some_inj x m (rw e at h) in
      let q : (x.seg == m.seg) ≡ true = rw same (==_refl m.seg) in rw q refl
  | inr e ↦ let rest = find_id-InUse id ms m (rw e at h) in ground (arith, rest)
]

-- What is above a number is not it.
skips :
    (id : ℕ) (x : MetaRec) (ms : List MetaRec) (m : MetaRec)
    → All (Above x.id) ms
    → find_id id ms ≡ some m
    → (x.id == id) ≡ false
skips id x ms m a h =
    let above : x.id < m.id = find_id-All (Above x.id) id ms m a h in
    let same = find_id-id id ms m h in ground (arith, above, same)

pub find_id-keep :
    (id : ℕ) (p : MetaRec → Bool) (ms : List MetaRec) (m : MetaRec)
    → IsAscending ms
    → find_id id (keep p ms) ≡ some m
    → find_id id ms ≡ some m
unfolding find_id keep
find_id-keep id p [] m a h = h
find_id-keep id p (x ∷ ms) m (above, a) h = elim (Bool-cases (p x)) [
  | inr gone ↦
      let rest = find_id-keep id p ms m a (rw gone at h) in rw (skips id x ms m above rest) rest
  | inl here ↦ elim (Bool-cases (x.id == id)) [
    | inl e ↦ rw e (rw e at (rw here at h))
    | inr e ↦ rw e (find_id-keep id p ms m a (rw e at (rw here at h)))
  ]
]

-- What a test that all pass leaves is found as before.
pub find_id-keep_all :
    (id : ℕ) (p : MetaRec → Bool) (ms : List MetaRec) (m : MetaRec)
    → find_id id ms ≡ some m
    → p m ≡ true
    → find_id id (keep p ms) ≡ some m
unfolding find_id keep
find_id-keep_all id p [] m h k = h
find_id-keep_all id p (x ∷ ms) m h k = elim (Bool-cases (x.id == id)) [
  | inl e ↦
      let same = some_inj x m (rw e at h) in
      let px : p x ≡ true = ap p same ∙ k in rw px (rw e (ap some same))
  | inr e ↦
      let rest = find_id-keep_all id p ms m (rw e at h) k in
      elim (Bool-cases (p x)) [ inl px ↦ rw px (rw e rest) | inr px ↦ rw px rest ]
]

find_id-front :
    (id : ℕ) (front xs : List MetaRec) (m : MetaRec)
    → IsAscending (front ++ xs)
    → find_id id xs ≡ some m
    → find_id id (front ++ xs) ≡ some m
unfolding find_id
find_id-front id [] xs m a h = h
find_id-front id (f ∷ fs) xs m (above, a) h =
    let rest = find_id-front id fs xs m a h in rw (skips id f (fs ++ xs) m above rest) rest

pub find_id-IsSuffix :
    (id : ℕ) (xs ys : List MetaRec) (m : MetaRec)
    → IsSuffix xs ys
    → IsAscending ys
    → find_id id xs ≡ some m
    → find_id id ys ≡ some m
find_id-IsSuffix id xs ys m (front, e) a h =
    subst (λ zs. find_id id zs ≡ some m) (sym e)
      (find_id-front id front xs m (subst IsAscending e a) h)

pub find_id-append_last :
    (id : ℕ) (ms : List MetaRec) (r m : MetaRec)
    → (r.id == id) ≡ false
    → find_id id (ms ++ r ∷ []) ≡ some m
    → find_id id ms ≡ some m
unfolding find_id
find_id-append_last id [] r m o h = cc (rw o at h)
find_id-append_last id (x ∷ ms) r m o h = elim (Bool-cases (x.id == id)) [
  | inl e ↦ rw e (rw e at h)
  | inr e ↦ rw e (find_id-append_last id ms r m o (rw e at h))
]

pub find_id-last :
    (ms : List MetaRec) (r : MetaRec) → All (Below r.id) ms → find_id r.id (ms ++ r ∷ []) ≡ some r
unfolding find_id
find_id-last [] r a = rw (==_refl r.id) refl
find_id-last (x ∷ ms) r (b, a) =
    let other : (x.id == r.id) ≡ false = ground (arith, b) in rw other (find_id-last ms r a)

-- The same message but for its group.
pub record IsSame (m n : MetaRec) : Type 0 where
  pub id : n.id ≡ m.id
  pub seg : n.seg ≡ m.seg
  pub body_off : n.body_off ≡ m.body_off
  pub body_len : n.body_len ≡ m.body_len

pub IsSame-refl : (m : MetaRec) → IsSame m m
IsSame-refl m = record { id = refl; seg = refl; body_off = refl; body_len = refl }

pub IsSame-trans : (k m n : MetaRec) → IsSame k m → IsSame m n → IsSame k n
IsSame-trans k m n a b = record {
  id = b.id ∙ a.id;
  seg = b.seg ∙ a.seg;
  body_off = b.body_off ∙ a.body_off;
  body_len = b.body_len ∙ a.body_len;
}

pub find_id-regroup :
    (id at : ℕ) (group : Option ℕ) (ms : List MetaRec) (m : MetaRec)
    → find_id id (regroup at group ms) ≡ some m
    → (k : MetaRec) × (find_id id ms ≡ some k) × IsSame k m
unfolding find_id regroup
find_id-regroup id at group [] m h = cc
find_id-regroup id at group (x ∷ ms) m h = elim (Bool-cases (x.id == at)) [
  | inl here ↦ elim (Bool-cases (x.id == id)) [
    | inl e ↦
        let y : MetaRec = record x { group = group } in
        let same : y ≡ m = some_inj y m (rw e at (rw here at h)) in
        (
          x,
          rw e refl,
          subst (IsSame x) same
              (record { id = refl; seg = refl; body_off = refl; body_len = refl }),
        )
    | inr e ↦ (m, rw e (rw e at (rw here at h)), IsSame-refl m)
  ]
  | inr other ↦ elim (Bool-cases (x.id == id)) [
    | inl e ↦
        let same = some_inj x m (rw e at (rw other at h)) in
        (x, rw e refl, subst (IsSame x) same (IsSame-refl x))
    | inr e ↦
        let (k, f, s) = find_id-regroup id at group ms m (rw e at (rw other at h)) in (k, rw e f, s)
  ]
]
