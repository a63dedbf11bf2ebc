-- ===== src/Store/Log/Appending.antt =====
-- crates/s2l-store/src/lib.rs: what `append` does to the files and to the index.
use stmp2log.Prelude.{
  ℕ, ◌+◌, ◌%◌, ◌^◌, ◌<◌, ◌≡◌, refl, sym, ap, ◌∙◌, List, [], ◌∷◌, ◌++◌, some, false, All, All-append,
  ◌==◌, some_inj, arith, Option-cases, inl, inr,
}
use stmp2log.Prelude.Int.{ℤ}
use stmp2log.Prelude.Text.{Text}
use stmp2log.Store.Record.{MetaRec, MetaLine}
use stmp2log.Store.Segments
use stmp2log.Store.Segments.{Segments, Json, Loc}
use stmp2log.Store.Segments.Growth.{IsConsistent}
use stmp2log.Store.Segments.Append.{append-IsWritten}
use stmp2log.Store.Segments.ReadBack.{Later}
use stmp2log.Store.Log
use stmp2log.Store.Log.{Inner, Retention, NewMessage, find_id, regroup, retained, has_id}
use stmp2log.Store.Log.Index.{Below, IsAscending-append_last, All-Below_le}
use stmp2log.Store.Log.Retain.{enforce-IsEnforced}
use stmp2log.Store.Log.Find.{IsSame-refl, find_id-append_last}
use stmp2log.Store.Log.Steps.{IsValid, Follows, enforced-Follows}

pub meta_of-id : (id : ℕ) (msg : NewMessage) (loc : Loc) → (Log.meta_of id msg loc).id ≡ id
unfolding Log.meta_of
meta_of-id id msg loc = refl

pub meta_of-ts :
    (id : ℕ) (msg : NewMessage) (loc : Loc) → (Log.meta_of id msg loc).ts ≡ msg.received_at
unfolding Log.meta_of
meta_of-ts id msg loc = refl

-- What was written and enforced for a message that is appended.
pub record IsAppended (json : Json) (encode : List ℕ → Text) (now : ℤ) (msg : NewMessage)
    (i : Inner) (m : MetaRec) (j : Inner) : Type 0 where
  pub loc : Loc
  pub segs : Segments
  pub is_written :
      Segments.append json
        (Log.stored_atts msg.mail.attachments)
        (Log.body_of encode i.next_id msg)
        (λ l. MetaLine.msg (Log.meta_of i.next_id msg l))
        i.segs
      ≡ some (loc, segs)
  pub enforced : Log.enforce now (Log.with_new msg i loc segs) ≡ some j
  pub meta : m ≡ Log.meta_of i.next_id msg loc

pub append-IsAppended :
    (json : Json) (encode : List ℕ → Text) (now : ℤ) (msg : NewMessage) (i : Inner) (m : MetaRec)
    (j : Inner)
    → Log.append json encode now msg i ≡ some (m, j)
    → IsAppended json encode now msg i m j
unfolding Log.append Log.indexed Log.with_rec
append-IsAppended json encode now msg i m j h =
    let o =
      Segments.append json (Log.stored_atts msg.mail.attachments) (Log.body_of encode i.next_id msg)
        (λ l. MetaLine.msg (Log.meta_of i.next_id msg l)) i.segs in
    elim (Option-cases o) [
      | inl e ↦ cc (rw e at h)
      | inr ((loc, s), e) ↦
          let k = Log.with_new msg i loc s in
          let new = Log.meta_of i.next_id msg loc in
          elim (Option-cases (Log.enforce now k)) [
            | inl f ↦
                let q : Log.with_rec new (Log.enforce now k) ≡ some (m, j) = rw e at h in
                cc (rw f at q)
            | inr (r, f) ↦
                let p : Log.with_rec new (Log.enforce now k) ≡ some (m, j) = rw e at h in
                let q : some (new, r) ≡ some (m, j) = rw f at p in
                let same = some_inj (new, r) (m, j) q in
                record {
                  loc = loc;
                  segs = s;
                  is_written = e;
                  enforced = f ∙ ap (λ p. some p.1) same;
                  meta = sym (ap (λ p. p.0) same);
                }
          ]
    ]

pub append-Follows :
    (json : Json) (encode : List ℕ → Text) (now : ℤ) (msg : NewMessage) (i : Inner) (m : MetaRec)
    (j : Inner)
    → IsValid i
    → i.next_id + 1 < 2 ^ 64
    → Log.append json encode now msg i ≡ some (m, j)
    → Follows i j
unfolding Log.with_new
append-Follows json encode now msg i m j v room h =
    let w = append-IsAppended json encode now msg i m j h in
    let new = Log.meta_of i.next_id msg w.loc in
    let k = Log.with_new msg i w.loc w.segs in
    let id_new : new.id ≡ i.next_id = meta_of-id i.next_id msg w.loc in
    let next : (i.next_id + 1) % 2 ^ 64 ≡ i.next_id + 1 = omega (arith, room) in
    let (a, b) = v.index in
    let written =
      append-IsWritten json (Log.stored_atts msg.mail.attachments)
        (Log.body_of encode i.next_id msg) (λ l. MetaLine.msg (Log.meta_of i.next_id msg l)) i.segs
        w.loc w.segs v.consistent w.is_written in
    let below : All (Below (i.next_id + 1)) (i.index ++ new ∷ []) =
      All-append (Below (i.next_id + 1)) i.index (new ∷ [])
        (All-Below_le i.next_id (i.next_id + 1) i.index (omega arith) b)
        (omega (arith, id_new), tt) in
    enforced-Follows now i k j written.consistent w.enforced
      (IsAscending-append_last i.index new a (rw id_new b), rw next below) (omega (arith, next))
      (λ seg.
        Later.appended i.segs w.segs w.segs json (Log.stored_atts msg.mail.attachments)
          (Log.body_of encode i.next_id msg) (λ l. MetaLine.msg (Log.meta_of i.next_id msg l)) w.loc
          w.is_written (Later.stay w.segs))
      (λ id n l e.
        let other : (new.id == id) ≡ false = ground (arith, id_new, l) in
        (n, find_id-append_last id i.index new n other e, IsSame-refl n))

pub new-IsConsistent :
    (json : Json) (encode : List ℕ → Text) (now : ℤ) (msg : NewMessage) (i : Inner) (m : MetaRec)
    (j : Inner)
    → IsValid i
    → (w : IsAppended json encode now msg i m j) → IsConsistent w.segs
new-IsConsistent json encode now msg i m j v w =
    (append-IsWritten json (Log.stored_atts msg.mail.attachments) (Log.body_of encode i.next_id msg)
      (λ l. MetaLine.msg (Log.meta_of i.next_id msg l)) i.segs w.loc w.segs v.consistent
      w.is_written).consistent

pub append-next_id :
    (json : Json) (encode : List ℕ → Text) (now : ℤ) (msg : NewMessage) (i : Inner) (m : MetaRec)
    (j : Inner)
    → IsValid i
    → i.next_id + 1 < 2 ^ 64
    → (w : IsAppended json encode now msg i m j) → j.next_id ≡ i.next_id + 1
unfolding Log.with_new
append-next_id json encode now msg i m j v room w =
    let e =
      enforce-IsEnforced now (Log.with_new msg i w.loc w.segs) j
        (new-IsConsistent json encode now msg i m j v w) w.enforced in
    let wrap : (i.next_id + 1) % 2 ^ 64 ≡ i.next_id + 1 = omega (arith, room) in e.next_id ∙ wrap
