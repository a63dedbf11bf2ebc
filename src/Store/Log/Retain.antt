-- ===== src/Store/Log/Retain.antt =====
-- crates/s2l-store/src/lib.rs: what the limits of the store leave of its index.
use stmp2log.Prelude.{
  ℕ, ◌+◌, ◌≤◌, ◌<◌, ◌≡◌, refl, sym, ap, ◌∙◌, subst, List, [], ◌∷◌, ◌++◌, append_assoc, some, true,
  false, All, ltb, length, length-append, some_inj, arith, Bool-cases, inl, inr,
}
use stmp2log.Prelude.Int.{ℤ, ltb_ℤ, ◌≤ℤ◌}
use stmp2log.Store.Record.{MetaRec, MetaLine}
use stmp2log.Store.Segments
use stmp2log.Store.Segments.{Segments}
use stmp2log.Store.Segments.Growth.{IsConsistent}
use stmp2log.Store.Segments.ReadBack.{Later}
use stmp2log.Store.Log
use stmp2log.Store.Log.{Inner, Retention, pop_excess, pop_old, retained, cutoff}
use stmp2log.Store.Log.Index.{Below, IsAscending, IsIndex}
use stmp2log.Store.Log.OnDisk.{InUse, after_line-IsNoted, append_meta-Later}

-- One list is what is left of another when its front is taken off.
abbrev pub IsSuffix : List MetaRec → List MetaRec → Type 0
IsSuffix xs ys = (front : List MetaRec) × (ys ≡ front ++ xs)

IsSuffix-cons : (m : MetaRec) (xs ys : List MetaRec) → IsSuffix xs ys → IsSuffix xs (m ∷ ys)
IsSuffix-cons m xs ys (front, e) = (m ∷ front, ap (λ r. m ∷ r) e)

pop_excess-IsSuffix : (n : ℕ) (ms : List MetaRec) → IsSuffix (pop_excess n ms) ms
unfolding pop_excess
pop_excess-IsSuffix n [] = ([], refl)
pop_excess-IsSuffix n (m ∷ ms) = elim (Bool-cases (ltb n (length (m ∷ ms)))) [
  | inl e ↦ rw e (IsSuffix-cons m (pop_excess n ms) ms (pop_excess-IsSuffix n ms))
  | inr e ↦ rw e ([], refl)
]

pop_old-IsSuffix : (c : ℤ) (ms : List MetaRec) → IsSuffix (pop_old c ms) ms
unfolding pop_old
pop_old-IsSuffix c [] = ([], refl)
pop_old-IsSuffix c (m ∷ ms) = elim (Bool-cases (ltb_ℤ m.ts c)) [
  | inl e ↦ rw e (IsSuffix-cons m (pop_old c ms) ms (pop_old-IsSuffix c ms))
  | inr e ↦ rw e ([], refl)
]

IsSuffix-trans : (xs ys zs : List MetaRec) → IsSuffix xs ys → IsSuffix ys zs → IsSuffix xs zs
IsSuffix-trans xs ys zs (f, e) (g, h) = (g ++ f, h ∙ ap (λ r. g ++ r) e ∙ sym (append_assoc g f xs))

pub retained-IsSuffix :
    (now : ℤ) (r : Retention) (ms : List MetaRec) → IsSuffix (retained now r ms) ms
unfolding retained
retained-IsSuffix now r ms = elim (Bool-cases (ltb 0 r.max_days)) [
  | inl e ↦ rw e (
      IsSuffix-trans (pop_old (cutoff now r.max_days) (pop_excess r.max_entries ms))
        (pop_excess r.max_entries ms) ms
        (pop_old-IsSuffix (cutoff now r.max_days) (pop_excess r.max_entries ms))
        (pop_excess-IsSuffix r.max_entries ms))
  | inr e ↦ rw e (pop_excess-IsSuffix r.max_entries ms)
]

-- A suffix that is no shorter is the whole.
IsSuffix-whole :
    (xs ys : List MetaRec) → IsSuffix xs ys → ltb (length xs) (length ys) ≡ false → xs ≡ ys
IsSuffix-whole xs ys ([], e) h = sym e
IsSuffix-whole xs ys (f ∷ fs, e) h =
    let longer : length ys ≡ length (f ∷ fs) + length xs =
      ap length e ∙ length-append (f ∷ fs) xs in
    ground (arith, longer, h)

IsAscending-suffix : (front xs : List MetaRec) → IsAscending (front ++ xs) → IsAscending xs
IsAscending-suffix [] xs h = h
IsAscending-suffix (f ∷ fs) xs (a, h) = IsAscending-suffix fs xs h

All-suffix {ℓ} : (P : MetaRec → Type ℓ) (front xs : List MetaRec) → All P (front ++ xs) → All P xs
All-suffix P [] xs h = h
All-suffix P (f ∷ fs) xs (a, h) = All-suffix P fs xs h

pub IsIndex-IsSuffix : (n : ℕ) (xs ys : List MetaRec) → IsSuffix xs ys → IsIndex n ys → IsIndex n xs
IsIndex-IsSuffix n xs ys (front, e) (a, b) = (
  IsAscending-suffix front xs (subst IsAscending e a),
  All-suffix (Below n) front xs (subst (All (Below n)) e b),
)

length-IsSuffix : (xs ys : List MetaRec) → IsSuffix xs ys → length xs ≤ length ys
length-IsSuffix xs ys (front, e) =
    let sum : length ys ≡ length front + length xs = ap length e ∙ length-append front xs in
    omega (arith, sum)

length-pop_excess : (n : ℕ) (ms : List MetaRec) → length (pop_excess n ms) ≤ n
unfolding pop_excess
length-pop_excess n [] = omega arith
length-pop_excess n (m ∷ ms) = ground (arith, length-pop_excess n ms)

pub length-retained :
    (now : ℤ) (r : Retention) (ms : List MetaRec) → length (retained now r ms) ≤ r.max_entries
unfolding retained
length-retained now r ms =
    let fits = pop_excess r.max_entries ms in
    let few = length-pop_excess r.max_entries ms in
    elim (Bool-cases (ltb 0 r.max_days)) [
      | inl e ↦
          let fewer =
            length-IsSuffix (pop_old (cutoff now r.max_days) fits) fits
              (pop_old-IsSuffix (cutoff now r.max_days) fits) in
          rw e (omega (arith, few, fewer))
      | inr e ↦ rw e few
    ]

-- The oldest message of the list is not from before the time.
abbrev pub StartsAfter : ℤ → List MetaRec → Type 0
StartsAfter c [] = Unit
StartsAfter c (m ∷ ms) = c ≤ℤ m.ts

pop_old-StartsAfter : (c : ℤ) (ms : List MetaRec) → StartsAfter c (pop_old c ms)
unfolding pop_old
pop_old-StartsAfter c [] = tt
pop_old-StartsAfter c (m ∷ ms) = elim (Bool-cases (ltb_ℤ m.ts c)) [
  | inl e ↦ rw e (pop_old-StartsAfter c ms)
  | inr e ↦ let old : ltb_ℤ m.ts c ≡ false = e in rw e (ground (arith, old))
]

pub retained-StartsAfter :
    (now : ℤ) (r : Retention) (ms : List MetaRec)
    → 0 < r.max_days
    → StartsAfter (cutoff now r.max_days) (retained now r ms)
unfolding retained
retained-StartsAfter now r ms h =
    let days : ltb 0 r.max_days ≡ true = ground arith in
    rw days (pop_old-StartsAfter (cutoff now r.max_days) (pop_excess r.max_entries ms))

-- What `enforce` leaves, if it returns.
pub record IsEnforced (now : ℤ) (i j : Inner) : Type 0 where
  pub index : j.index ≡ retained now i.retention i.index
  pub next_id : j.next_id ≡ i.next_id
  pub retention : j.retention ≡ i.retention
  pub later : (seg : ℕ) → InUse seg j.index → Later seg i.segs j.segs
  pub consistent : IsConsistent j.segs

pub enforce-IsEnforced :
    (now : ℤ) (i j : Inner) → IsConsistent i.segs → Log.enforce now i ≡ some j → IsEnforced now i j
unfolding Log.enforce
enforce-IsEnforced now i j v h =
    let index = retained now i.retention i.index in
    let floor = Log.floor_of i.next_id index in
    let k : Inner = record i { index = index; floor = floor } in
    let line = MetaLine.floor_line floor in
    elim (Bool-cases (ltb (length index) (length i.index))) [
      | inl e ↦
          let q : Log.after_line k (Segments.append_meta line i.segs) ≡ some j = rw e at h in
          let n =
            after_line-IsNoted k i.segs (Segments.append_meta line i.segs) j v
              (append_meta-Later line i.segs) q in
          record {
            index = n.index;
            next_id = n.next_id;
            retention = n.retention;
            later = λ seg u. n.later seg (subst (InUse seg) n.index u);
            consistent = n.consistent;
          }
      | inr e ↦
          let same = some_inj i j (rw e at h) in
          let whole = IsSuffix-whole index i.index (retained-IsSuffix now i.retention i.index) e in
          let unchanged : IsEnforced now i i = record {
            index = sym whole;
            next_id = refl;
            retention = refl;
            later = λ seg u. Later.stay i.segs;
            consistent = v;
          } in
          subst (IsEnforced now i) same unchanged
    ]
