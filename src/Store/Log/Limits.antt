-- ===== src/Store/Log/Limits.antt =====
-- crates/s2l-store/src/lib.rs: the limits hold after each operation that applies them, and they leave the
-- newest messages.
use stmp2log.Prelude.{
  ℕ, zero, suc, ◌+◌, ◌^◌, ◌≤◌, ◌<◌, ◌≡◌, refl, sym, ap, ◌∙◌, subst, ◌⊎◌, List, [], ◌∷◌, ◌++◌, none,
  some, false, ltb, length, arith, Bool-cases, inl, inr,
}
use stmp2log.Prelude.Int.{ℤ, ltb_ℤ, ◌≤ℤ◌}
use stmp2log.Prelude.Text.{Text}
use stmp2log.Store.Record.{MetaRec}
use stmp2log.Store.Segments
use stmp2log.Store.Segments.{Segments, Json}
use stmp2log.Store.Segments.Opening.{ensure_open_diverges}
use stmp2log.Store.Log
use stmp2log.Store.Log.{
  Inner, Retention, NewMessage, find_id, pop_excess, pop_old, retained, cutoff,
}
use stmp2log.Store.Log.Index.{IsAscending, IsAscending-last}
use stmp2log.Store.Log.Retain.{
  IsSuffix, retained-IsSuffix, IsIndex-IsSuffix, length-retained, StartsAfter, retained-StartsAfter,
  enforce-IsEnforced,
}
use stmp2log.Store.Log.Find.{find_id-last}
use stmp2log.Store.Log.Steps.{IsValid}
use stmp2log.Store.Log.Appending.{
  append-IsAppended, append-Follows, meta_of-id, meta_of-ts, new-IsConsistent, append-next_id,
}

pop_excess-last :
    (n : ℕ) (ms : List MetaRec) (r : MetaRec)
    → 0 < n
    → (ys : List MetaRec) × (pop_excess n (ms ++ r ∷ []) ≡ ys ++ r ∷ [])
unfolding pop_excess
pop_excess-last n [] r h = let fits : ltb n 1 ≡ false = ground arith in ([], rw fits refl)
pop_excess-last n (m ∷ ms) r h = elim (Bool-cases (ltb n (length (m ∷ (ms ++ r ∷ []))))) [
  | inl e ↦ rw e (pop_excess-last n ms r h)
  | inr e ↦ (m ∷ ms, rw e refl)
]

pop_old-last :
    (c : ℤ) (ms : List MetaRec) (r : MetaRec)
    → c ≤ℤ r.ts
    → (ys : List MetaRec) × (pop_old c (ms ++ r ∷ []) ≡ ys ++ r ∷ [])
unfolding pop_old
pop_old-last c [] r h = let young : ltb_ℤ r.ts c ≡ false = ground (arith, h) in ([], rw young refl)
pop_old-last c (m ∷ ms) r h = elim (Bool-cases (ltb_ℤ m.ts c)) [
  | inl e ↦ rw e (pop_old-last c ms r h)
  | inr e ↦ (m ∷ ms, rw e refl)
]

-- The limits admit the message, were it the only one.
abbrev pub Admits : ℤ → Retention → ℤ → Type 0
Admits now r ts = (0 < r.max_entries) × ((r.max_days ≡ 0) ⊎ (cutoff now r.max_days ≤ℤ ts))

retained-last :
    (now : ℤ) (r : Retention) (ms : List MetaRec) (m : MetaRec)
    → Admits now r m.ts
    → (ys : List MetaRec) × (retained now r (ms ++ m ∷ []) ≡ ys ++ m ∷ [])
unfolding retained
retained-last now r ms m (few, young) =
    let (ys, e) = pop_excess-last r.max_entries ms m few in
    elim young [
      | inl always ↦ let off : ltb 0 r.max_days ≡ false = rw always refl in (ys, rw off e)
      | inr late ↦ elim (Bool-cases (ltb 0 r.max_days)) [
        | inl on ↦
            let (zs, f) = pop_old-last (cutoff now r.max_days) ys m late in (zs, rw on (rw e f))
        | inr off ↦ (ys, rw off e)
      ]
    ]

-- What `enforce` leaves are the newest messages, no more of them than the limit, the oldest of them not from
-- before the limit in days, if there is one. With the index sorted before it is so after.
pub enforce_lem :
    (now : ℤ) (i j : Inner)
    → IsValid i
    → Log.enforce now i ≡ some j
    → IsSuffix j.index i.index
      × (length j.index ≤ i.retention.max_entries)
      × (0 < i.retention.max_days → StartsAfter (cutoff now i.retention.max_days) j.index)
      × IsValid j
enforce_lem now i j v h =
    let e = enforce-IsEnforced now i j v.consistent h in
    let suffix = retained-IsSuffix now i.retention i.index in
    (
      rw e.index suffix,
      rw e.index (length-retained now i.retention i.index),
      λ days. rw e.index (retained-StartsAfter now i.retention i.index days),
      record {
        index = rw e.next_id (
            rw e.index (
              IsIndex-IsSuffix i.next_id (retained now i.retention i.index) i.index suffix
                v.index));
        consistent = e.consistent;
      },
    )

by_days : (days : ℕ) (P : Type 0) → (0 < days → P) → (days ≡ 0) ⊎ P
by_days zero P f = inl refl
by_days (suc n) P f = inr (f (omega arith))

pub append_lem :
    (json : Json) (encode : List ℕ → Text) (now : ℤ) (msg : NewMessage) (i : Inner) (m : MetaRec)
    (j : Inner)
    → IsValid i
    → i.next_id + 1 < 2 ^ 64
    → Admits now i.retention msg.received_at
    → Log.append json encode now msg i ≡ some (m, j)
    → (m.id ≡ i.next_id)
      × (find_id m.id j.index ≡ some m)
      × (length j.index ≤ i.retention.max_entries)
      × ((i.retention.max_days ≡ 0) ⊎ StartsAfter (cutoff now i.retention.max_days) j.index)
      × (j.next_id ≡ i.next_id + 1)
unfolding Log.with_new
append_lem json encode now msg i m j v room admits h =
    let w = append-IsAppended json encode now msg i m j h in
    let new = Log.meta_of i.next_id msg w.loc in
    let k = Log.with_new msg i w.loc w.segs in
    let e =
      enforce-IsEnforced now k j (new-IsConsistent json encode now msg i m j v w) w.enforced in
    let ident : new.id ≡ i.next_id = meta_of-id i.next_id msg w.loc in
    let (ys, last) =
      retained-last now i.retention i.index new (rw (meta_of-ts i.next_id msg w.loc) admits) in
    let left : j.index ≡ ys ++ new ∷ [] = e.index ∙ last in
    let (ascending, _) = (append-Follows json encode now msg i m j v room h).index in
    let shorter = IsAscending-last ys new (subst IsAscending left ascending) in
    let found : find_id new.id j.index ≡ some new = rw left (find_id-last ys new shorter) in
    (
      ap (λ r. r.id) w.meta ∙ ident,
      subst (λ r. find_id r.id j.index ≡ some r) (sym w.meta) found,
      rw e.index (length-retained now i.retention (i.index ++ new ∷ [])),
      by_days i.retention.max_days (StartsAfter (cutoff now i.retention.max_days) j.index)
          (λ days. rw e.index (retained-StartsAfter now i.retention (i.index ++ new ∷ []) days)),
      append-next_id json encode now msg i m j v room w,
    )

-- A message whose attachments are so large that they and 4096 bytes are more than a body file may hold is never
-- appended: `ensure_open` calls itself without end, so that no number of calls is enough for it.
pub append_diverges :
    (json : Json) (encode : List ℕ → Text) (now : ℤ) (msg : NewMessage) (i : Inner)
    → Segments.max_body_bytes < Segments.total (Log.stored_atts msg.mail.attachments) + 4096
    → ((fuel : ℕ)
        → Segments.ensure_open fuel
            (Segments.total (Log.stored_atts msg.mail.attachments) + 4096)
            i.segs
          ≡ none)
      × (Log.append json encode now msg i ≡ none)
unfolding Log.append Log.indexed Segments.append Segments.append_open
append_diverges json encode now msg i h =
    let n = Segments.total (Log.stored_atts msg.mail.attachments) + 4096 in
    (
      λ fuel. ensure_open_diverges fuel n i.segs h,
      rw (ensure_open_diverges Segments.open_fuel n i.segs h) refl,
    )
