-- ===== src/Retry/Order.antt =====
-- The order of the retry queue of crates/stmp2log/src/retry.rs: entries wait by when the alert
-- happened, and those that happened at one time by when they came.
use stmp2log.Prelude.{
  ℕ, zero, suc, ◌≡◌, refl, ap, ◌∙◌, List, [], ◌∷◌, ◌++◌, none, some, false, arith, All, Bool-cases,
  Option-cases, inl, inr,
}
use stmp2log.Prelude.Int.{◌≤ℤ◌, leb_ℤ}
use stmp2log.Retry.{Pending, rposition, insert_at, insert_by_time}

-- The alert of `p` happened no later than that of `q`.
abbrev pub Before : Pending → Pending → Type 0
Before p q = p.at ≤ℤ q.at

-- The alert of `q` happened later than that of `p`.
abbrev pub Later : Pending → Pending → Type 0
Later p q = leb_ℤ q.at p.at ≡ false

abbrev pub IsSorted : List Pending → Type 0
IsSorted [] = Unit
IsSorted (p ∷ q) = All (Before p) q × IsSorted q

rposition-none :
    (p : Pending) (q : List Pending) → rposition (λ x. leb_ℤ x.at p.at) q ≡ none → All (Later p) q
unfolding rposition
rposition-none p [] h = tt
rposition-none p (x ∷ q) h = ground (arith, rposition-none p q)

rposition-some :
    (x p : Pending) (q : List Pending) (i : ℕ)
    → All (Before x) q
    → rposition (λ x. leb_ℤ x.at p.at) q ≡ some i
    → Before x p
unfolding rposition
rposition-some x p [] i a h = cc
rposition-some x p (y ∷ q) i (xy, a) h = elim (Option-cases (rposition (λ z. leb_ℤ z.at p.at) q)) [
  | inl e ↦ ground (arith, rw e at h)
  | inr (j, e) ↦ rposition-some x p q j a e
]

All-insert_at {ℓ} :
    (P : Pending → Type ℓ) (i : ℕ) (p : Pending) (q : List Pending)
    → P p
    → All P q
    → All P (insert_at i p q)
unfolding insert_at
All-insert_at P zero p q h a = (h, a)
All-insert_at P (suc i) p [] h a = (h, tt)
All-insert_at P (suc i) p (x ∷ q) h (hx, a) = (hx, All-insert_at P i p q h a)

All-Before : (p x : Pending) (q : List Pending) → Before p x → All (Before x) q → All (Before p) q
All-Before p x [] h a = tt
All-Before p x (y ∷ q) h (hy, a) = (omega arith, All-Before p x q h a)

All-Later : (p : Pending) (q : List Pending) → All (Later p) q → All (Before p) q
All-Later p [] a = tt
All-Later p (x ∷ q) (hx, a) = (ground arith, All-Later p q a)

insert_behind :
    (x p : Pending) (q : List Pending) (i : ℕ)
    → rposition (λ z. leb_ℤ z.at p.at) q ≡ some i
    → insert_by_time (x ∷ q) p ≡ x ∷ insert_by_time q p
unfolding insert_by_time
insert_behind x p q i e = rw e

-- Where an entry goes in a queue that is sorted: behind those whose alerts happened no later, in
-- front of those whose alerts happened later.
pub insert_by_time_lem :
    (q : List Pending) (p : Pending)
    → IsSorted q
    → (a : List Pending) × (b : List Pending) × (q ≡ a ++ b)
      × (insert_by_time q p ≡ a ++ p ∷ b)
      × All (λ x. Before x p) a
      × All (Later p) b
unfolding insert_by_time
insert_by_time_lem [] p s = ([], [], refl, refl, tt, tt)
insert_by_time_lem (x ∷ q) p (hx, s) = elim (Option-cases (rposition (λ z. leb_ℤ z.at p.at) q)) [
  | inl e ↦ elim (Bool-cases (leb_ℤ x.at p.at)) [
    | inl le ↦ (x ∷ [], q, refl, rw (e, le), (ground arith, tt), rposition-none p q e)
    | inr gt ↦ ([], x ∷ q, refl, rw (e, gt), tt, (gt, rposition-none p q e))
  ]
  | inr (i, e) ↦
      let (a, b, qe, ie, ha, hb) = insert_by_time_lem q p s in
      (
        x ∷ a,
        b,
        ap (λ l. x ∷ l) qe,
        insert_behind x p q i e ∙ ap (λ l. x ∷ l) ie,
        (rposition-some x p q i hx e, ha),
        hb,
      )
]

-- The queue stays sorted when an entry is inserted.
pub insert_by_time-IsSorted :
    (q : List Pending) (p : Pending) → IsSorted q → IsSorted (insert_by_time q p)
unfolding insert_by_time
insert_by_time-IsSorted [] p s = (tt, tt)
insert_by_time-IsSorted (x ∷ q) p (hx, s) =
    elim (Option-cases (rposition (λ z. leb_ℤ z.at p.at) q)) [
      | inl e ↦ elim (Bool-cases (leb_ℤ x.at p.at)) [
        | inl le ↦ rw (e, le) ((ground arith, hx), (All-Later p q (rposition-none p q e), s))
        | inr gt ↦ rw (e, gt) ((ground arith, All-Before p x q (ground arith) hx), (hx, s))
      ]
      | inr (i, e) ↦ rw (insert_behind x p q i e) (
        (All-insert_at (Before x) _ p q (rposition-some x p q i hx e) hx),
        insert_by_time-IsSorted q p s,
      )
    ]
