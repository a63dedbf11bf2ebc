-- ===== src/Store/Log/Endure.antt =====
-- crates/s2l-store/src/lib.rs: what was appended is read, as long as its message is there.
use stmp2log.Prelude.{
  ℕ, ◌+◌, ◌%◌, ◌^◌, ◌<◌, ◌≡◌, refl, sym, ap, ◌∙◌, subst, List, [], ◌∷◌, ◌++◌, some, All, length,
  get_elem?, some_inj, arith,
}
use stmp2log.Prelude.Int.{ℤ}
use stmp2log.Prelude.Text.{Text}
use stmp2log.Store.Record.{MetaRec, MetaLine, BodyRec}
use stmp2log.Store.Segments
use stmp2log.Store.Segments.{Segments, Json, Loc, files_at, spots_from}
use stmp2log.Store.Segments.ReadBack.{Later, Later-trans, append_round_trip}
use stmp2log.Store.Log
use stmp2log.Store.Log.{Inner, NewMessage, find_id, retained}
use stmp2log.Store.Log.Index.{Below, IsAscending-append_last}
use stmp2log.Store.Log.Search
use stmp2log.Store.Log.Find.{IsSame, find_id-InUse, find_id-IsSuffix, find_id-last}
use stmp2log.Store.Log.Retain.{retained-IsSuffix, enforce-IsEnforced}
use stmp2log.Store.Log.Appending.{
  IsAppended, append-IsAppended, append-Follows, meta_of-id, new-IsConsistent, append-next_id,
}
use stmp2log.Store.Log.Steps.{IsValid}
use stmp2log.Store.Log.History.{Run, Run-Endures}

meta_of-loc : (id : ℕ) (msg : NewMessage) (loc : Loc) → Search.loc_in (Log.meta_of id msg loc) ≡ loc
unfolding Log.meta_of Search.loc_in
meta_of-loc id msg loc = refl

IsSame-loc_in : (m n : MetaRec) → IsSame m n → Search.loc_in n ≡ Search.loc_in m
unfolding Search.loc_in
IsSame-loc_in m n s = rw s.seg (rw s.body_off (rw s.body_len refl))

seg_of : (n : MetaRec) (loc : Loc) → Search.loc_in n ≡ loc → n.seg ≡ loc.seg
unfolding Search.loc_in
seg_of n loc e = ap (λ l. l.seg) e

pub get_lem :
    (json : Json) (id : ℕ) (k : Inner) (n : MetaRec) (b : BodyRec)
    → find_id id k.index ≡ some n
    → Segments.read_body_at json k.segs (Search.loc_in n) ≡ some b
    → Search.get json id k ≡ some (record { meta = n; body = b })
unfolding Search.get Search.with_its_body Search.or_empty
get_lem json id k n b f r = rw f (rw r refl)

attachment_lem :
    (json : Json) (id at : ℕ) (k : Inner) (n : MetaRec) (b : BodyRec) (spot : ℕ × ℕ) (a : List ℕ)
    → find_id id k.index ≡ some n
    → Segments.read_body_at json k.segs (Search.loc_in n) ≡ some b
    → get_elem? b.att_spots at ≡ some spot
    → Segments.read_att k.segs n.seg spot.0 spot.1 ≡ some a
    → Search.attachment json id at k ≡ some a
unfolding Search.attachment Search.attachment_of Search.attachment_in Search.spot_in
attachment_lem json id at k n b (off, len) a f r g e = rw f (rw r (rw g e))

body_of-spots :
    (encode : List ℕ → Text) (id : ℕ) (msg : NewMessage) (spots : List (ℕ × ℕ)) (at : ℕ)
    (spot : ℕ × ℕ)
    → get_elem? spots at ≡ some spot
    → get_elem? (Log.body_of encode id msg spots).att_spots at ≡ some spot
unfolding Log.body_of
body_of-spots encode id msg spots at spot e = e

-- The place of a message that was just appended, and its segment.
new_place :
    (json : Json) (encode : List ℕ → Text) (now : ℤ) (msg : NewMessage) (i : Inner) (m : MetaRec)
    (j : Inner) (c : MetaRec)
    → IsValid i
    → (w : IsAppended json encode now msg i m j) → find_id i.next_id j.index ≡ some c
    → (c ≡ Log.meta_of i.next_id msg w.loc) × Later c.seg w.segs j.segs
unfolding Log.with_new
new_place json encode now msg i m j c v w h =
    let new = Log.meta_of i.next_id msg w.loc in
    let k = Log.with_new msg i w.loc w.segs in
    let ident : new.id ≡ i.next_id = meta_of-id i.next_id msg w.loc in
    let e =
      enforce-IsEnforced now k j (new-IsConsistent json encode now msg i m j v w) w.enforced in
    let (a, b) = v.index in
    let left = retained now i.retention (i.index ++ new ∷ []) in
    let below : All (Below new.id) i.index = rw ident b in
    let q : find_id i.next_id left ≡ some c =
      subst (λ ms. find_id i.next_id ms ≡ some c) e.index h in
    let whole =
      find_id-IsSuffix i.next_id left (i.index ++ new ∷ []) c
        (retained-IsSuffix now i.retention (i.index ++ new ∷ []))
        (IsAscending-append_last i.index new a below) q in
    let last : find_id i.next_id (i.index ++ new ∷ []) ≡ some new =
      subst (λ z. find_id z (i.index ++ new ∷ []) ≡ some new) ident
        (find_id-last i.index new below) in
    (some_inj c new (sym whole ∙ last), e.later c.seg (find_id-InUse i.next_id j.index c h))

-- What was written for a message is in its files after any later operations.
new_files :
    (json : Json) (encode : List ℕ → Text) (now : ℤ) (msg : NewMessage) (i : Inner) (m : MetaRec)
    (j k : Inner) (n : MetaRec)
    → IsValid i
    → (w : IsAppended json encode now msg i m j) → IsValid j
    → Run j k
    → find_id i.next_id k.index ≡ some n
    → (j.next_id ≡ i.next_id + 1)
    → (Search.loc_in n ≡ w.loc) × Later w.loc.seg w.segs k.segs
unfolding Search.loc_in
new_files json encode now msg i m j k n v w vj run h next =
    let new = Log.meta_of i.next_id msg w.loc in
    let r = Run-Endures j k vj run in
    let (c, g, same, kept) = r.same i.next_id n (omega (arith, next)) h in
    let (is_new, here) = new_place json encode now msg i m j c v w g in
    let place : Search.loc_in n ≡ w.loc =
      IsSame-loc_in c n same ∙ ap Search.loc_in is_new ∙ meta_of-loc i.next_id msg w.loc in
    let seg : n.seg ≡ w.loc.seg = ap (λ l. l.seg) place in
    (
      place,
      Later-trans w.loc.seg w.segs j.segs k.segs
          (subst (λ z. Later z w.segs j.segs) (sym same.seg ∙ seg) here)
          (subst (λ z. Later z j.segs k.segs) seg kept),
    )

-- Once a message was appended, its number gives the body that was appended and each of its attachments,
-- through any operations after that, as long as a message of the number is there. JSON gives back the
-- record it wrote, the record and the attachments have less than 2^32 bytes, the file of attachments and
-- the numbers of messages stay below 2^64.
pub appended_endures :
    (json : Json) (encode : List ℕ → Text) (now : ℤ) (msg : NewMessage) (i : Inner) (m : MetaRec)
    (j k : Inner) (n : MetaRec)
    → IsValid i
    → i.next_id + 1 < 2 ^ 64
    → Log.append json encode now msg i ≡ some (m, j)
    → Run j k
    → find_id m.id k.index ≡ some n
    → ((at : ℕ)
        → at < 2 ^ 64
        → json.from_slice (
            json.to_vec (
              Log.body_of encode i.next_id msg
                (spots_from at (Log.stored_atts msg.mail.attachments))))
          ≡ some (
              Log.body_of encode i.next_id msg
                (spots_from at (Log.stored_atts msg.mail.attachments))))
    → ((at : ℕ)
        → at < 2 ^ 64
        → length (
            json.to_vec (
              Log.body_of encode i.next_id msg
                (spots_from at (Log.stored_atts msg.mail.attachments))))
          < 2 ^ 32)
    → ((f : Segments.Files) → files_at n.seg k.segs.files ≡ some f → length f.att < 2 ^ 64)
    → All (λ a. length a < 2 ^ 32) (Log.stored_atts msg.mail.attachments)
    → (spots : List (ℕ × ℕ)) × (Search.get json m.id k
        ≡ some (record { meta = n; body = Log.body_of encode m.id msg spots }))
      × ((at : ℕ) (a : List ℕ)
          → get_elem? (Log.stored_atts msg.mail.attachments) at ≡ some a
          → Search.attachment json m.id at k ≡ some a)
appended_endures json encode now msg i m j k n v room h run f law small space smalls =
    let w = append-IsAppended json encode now msg i m j h in
    let ident : m.id ≡ i.next_id = ap (λ r. r.id) w.meta ∙ meta_of-id i.next_id msg w.loc in
    let after = append-Follows json encode now msg i m j v room h in
    let vj : IsValid j = record { index = after.index; consistent = after.consistent } in
    let found : find_id i.next_id k.index ≡ some n =
      subst (λ z. find_id z k.index ≡ some n) ident f in
    let next = append-next_id json encode now msg i m j v room w in
    let (place, later) = new_files json encode now msg i m j k n v w vj run found next in
    let seg : n.seg ≡ w.loc.seg = seg_of n w.loc place in
    let (spots, body, atts) =
      append_round_trip json (Log.stored_atts msg.mail.attachments)
        (Log.body_of encode i.next_id msg) (λ l. MetaLine.msg (Log.meta_of i.next_id msg l)) i.segs
        w.loc w.segs k.segs v.consistent w.is_written later law small
        (subst
          (λ z. (g : Segments.Files) → files_at z k.segs.files ≡ some g → length g.att < 2 ^ 64) seg
          space)
        smalls in
    (
      spots,
      get_lem json m.id k n (Log.body_of encode m.id msg spots) f (rw place (rw ident body)),
      λ at a e.
          let (off, spot, read) = atts at a e in
          attachment_lem json m.id at k n (Log.body_of encode i.next_id msg spots)
            (off, length a % 2 ^ 32) a f (rw place body)
            (body_of-spots encode i.next_id msg spots at (off, length a % 2 ^ 32) spot)
            (rw seg read),
    )
