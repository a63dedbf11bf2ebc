-- ===== src/Store/Log/Pages.antt =====
-- crates/s2l-store/src/lib.rs: the pages of a search are parts of one sorted list of what was found.
use mathlib.Core.List.{Perm}
use mathlib.Core.List.Perm
use stmp2log.Prelude.{
  suc, ◌-◌, ◌≤◌, min, ◌≡◌, refl, sym, ap, ◌∙◌, List, [], ◌∷◌, true, false, All, length, length-take,
  length-drop, take, drop, arith, Bool-cases, inl, inr,
}
use stmp2log.Prelude.Int.{◌≤ℤ◌}
use stmp2log.Prelude.Text.{Text}
use stmp2log.Store.Record.{MetaRec}
use stmp2log.Store.Segments.{Json}
use stmp2log.Store.Query
use stmp2log.Store.Query.{Query, Sort}
use stmp2log.Store.Log.{Inner}
use stmp2log.Store.Log.Search
use stmp2log.Store.Log.Search.{earlier, insert_by, sort_by, hits}

-- The second does not come before the first.
abbrev IsPlaced : Sort → MetaRec → MetaRec → Type 0
IsPlaced o a b = earlier o b a ≡ false

abbrev IsSorted : Sort → List MetaRec → Type 0
IsSorted o [] = Unit
IsSorted o (m ∷ ms) = All (IsPlaced o m) ms × IsSorted o ms

IsPlaced-trans : (o : Sort) (a b c : MetaRec) → IsPlaced o a b → IsPlaced o b c → IsPlaced o a c
unfolding earlier
IsPlaced-trans Sort.time_desc a b c h k = ground (arith, h, k)
IsPlaced-trans Sort.time_asc a b c h k = ground (arith, h, k)

earlier-IsPlaced : (o : Sort) (a b : MetaRec) → earlier o a b ≡ true → IsPlaced o a b
unfolding earlier
earlier-IsPlaced Sort.time_desc a b h = ground (arith, h)
earlier-IsPlaced Sort.time_asc a b h = ground (arith, h)

All-IsPlaced :
    (o : Sort) (a b : MetaRec) (ms : List MetaRec)
    → IsPlaced o a b
    → All (IsPlaced o b) ms
    → All (IsPlaced o a) ms
All-IsPlaced o a b [] h k = tt
All-IsPlaced o a b (m ∷ ms) h (bm, k) = (IsPlaced-trans o a b m h bm, All-IsPlaced o a b ms h k)

All-insert_by {ℓ} :
    (P : MetaRec → Type ℓ) (o : Sort) (m : MetaRec) (ms : List MetaRec)
    → P m
    → All P ms
    → All P (insert_by o m ms)
unfolding insert_by
All-insert_by P o m [] h a = (h, tt)
All-insert_by P o m (x ∷ xs) h (b, a) = elim (Bool-cases (earlier o x m)) [
  | inl e ↦ rw e (b, All-insert_by P o m xs h a)
  | inr e ↦ rw e (h, (b, a))
]

insert_by-IsSorted :
    (o : Sort) (m : MetaRec) (ms : List MetaRec) → IsSorted o ms → IsSorted o (insert_by o m ms)
unfolding insert_by
insert_by-IsSorted o m [] h = (tt, tt)
insert_by-IsSorted o m (x ∷ xs) (a, h) = elim (Bool-cases (earlier o x m)) [
  | inl e ↦ rw e (
    All-insert_by (IsPlaced o x) o m xs (earlier-IsPlaced o x m e) a,
    insert_by-IsSorted o m xs h,
  )
  | inr e ↦ rw e ((e, All-IsPlaced o m x xs e a), (a, h))
]

sort_by-IsSorted : (o : Sort) (ms : List MetaRec) → IsSorted o (sort_by o ms)
unfolding sort_by
sort_by-IsSorted o [] = tt
sort_by-IsSorted o (m ∷ ms) = insert_by-IsSorted o m (sort_by o ms) (sort_by-IsSorted o ms)

insert_by-Perm : (o : Sort) (m : MetaRec) (ms : List MetaRec) → Perm (insert_by o m ms) (m ∷ ms)
unfolding insert_by
insert_by-Perm o m [] = Perm.refl _
insert_by-Perm o m (x ∷ xs) = elim (Bool-cases (earlier o x m)) [
  | inl e ↦ rw e (Perm.trans (Perm.cons x (insert_by-Perm o m xs)) (Perm.swap m x xs))
  | inr e ↦ rw e (Perm.refl _)
]

sort_by-Perm : (o : Sort) (ms : List MetaRec) → Perm (sort_by o ms) ms
unfolding sort_by
sort_by-Perm o [] = Perm.refl _
sort_by-Perm o (m ∷ ms) =
    Perm.trans (insert_by-Perm o m (sort_by o ms)) (Perm.cons m (sort_by-Perm o ms))

length-insert_by :
    (o : Sort) (m : MetaRec) (ms : List MetaRec) → length (insert_by o m ms) ≡ suc (length ms)
unfolding insert_by
length-insert_by o m [] = refl
length-insert_by o m (x ∷ xs) = elim (Bool-cases (earlier o x m)) [
  | inl e ↦ rw e (ap suc (length-insert_by o m xs))
  | inr e ↦ rw e refl
]

length-sort_by : (o : Sort) (ms : List MetaRec) → length (sort_by o ms) ≡ length ms
unfolding sort_by
length-sort_by o [] = refl
length-sort_by o (m ∷ ms) = length-insert_by o m (sort_by o ms) ∙ ap suc (length-sort_by o ms)

-- The order that is asked for: by the time, and by the number where the times are the same.
abbrev pub InOrder : Sort → MetaRec → MetaRec → Type 0
InOrder Sort.time_desc a b = (b.ts ≤ℤ a.ts) × (a.ts ≤ℤ b.ts → b.id ≤ a.id)
InOrder Sort.time_asc a b = (a.ts ≤ℤ b.ts) × (b.ts ≤ℤ a.ts → a.id ≤ b.id)

abbrev pub IsOrdered : Sort → List MetaRec → Type 0
IsOrdered o [] = Unit
IsOrdered o (m ∷ ms) = All (InOrder o m) ms × IsOrdered o ms

IsPlaced-InOrder : (o : Sort) (a b : MetaRec) → IsPlaced o a b → InOrder o a b
unfolding earlier
IsPlaced-InOrder Sort.time_desc a b h = (ground (arith, h), λ same. ground (arith, h, same))
IsPlaced-InOrder Sort.time_asc a b h = (ground (arith, h), λ same. ground (arith, h, same))

All-InOrder :
    (o : Sort) (m : MetaRec) (ms : List MetaRec) → All (IsPlaced o m) ms → All (InOrder o m) ms
All-InOrder o m [] h = tt
All-InOrder o m (x ∷ xs) (a, h) = (IsPlaced-InOrder o m x a, All-InOrder o m xs h)

IsSorted-IsOrdered : (o : Sort) (ms : List MetaRec) → IsSorted o ms → IsOrdered o ms
IsSorted-IsOrdered o [] h = tt
IsSorted-IsOrdered o (m ∷ ms) (a, h) = (All-InOrder o m ms a, IsSorted-IsOrdered o ms h)

-- A page is the part from the offset on of one list of all that was found, by the time, the newest or the
-- oldest first as asked, and by the number where the times are the same; it has as many messages as
-- there are up to the limit, which is from 1 to 500, and the total is that of the list.
pub query_lem :
    (json : Json) (lower : Text → Text) (q : Query) (i : Inner)
    → (found : List MetaRec) × IsOrdered q.sort found
      × Perm found (hits json lower (Query.clamp q) i)
      × ((Search.query json lower q i).items ≡ take (Query.clamp q).limit (drop q.offset found))
      × ((Search.query json lower q i).total ≡ length found)
      × (length (Search.query json lower q i).items
          ≡ min (Query.clamp q).limit (length found - q.offset))
      × (1 ≤ (Query.clamp q).limit)
      × ((Query.clamp q).limit ≤ 500)
unfolding Search.query Query.clamp
query_lem json lower q i =
    let all = hits json lower (Query.clamp q) i in
    let found = sort_by q.sort all in
    (
      found,
      IsSorted-IsOrdered q.sort found (sort_by-IsSorted q.sort all),
      sort_by-Perm q.sort all,
      refl,
      sym (length-sort_by q.sort all),
      length-take (Query.clamp q).limit (drop q.offset found)
          ∙ ap (min (Query.clamp q).limit) (length-drop q.offset found),
      ground arith,
      ground arith,
    )
