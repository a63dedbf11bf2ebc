-- ===== src/Store/Log/Removal.antt =====
-- crates/s2l-store/src/lib.rs: what `delete` and `set_group` change, and what they leave.
use stmp2log.Prelude.{
  ℕ, ◌+◌, ◌-◌, ◌≤◌, ◌≡◌, refl, sym, ap, ◌∙◌, List, [], ◌∷◌, none, some, Bool, true, false, not, any,
  keep, ltb, length, length-keep, ◌==◌, ==_iff, some_inj, arith, Bool-cases, Option-cases, inl, inr,
  if◌then◌else◌,
}
use stmp2log.Store.Record.{MetaRec}
use stmp2log.Store.Log
use stmp2log.Store.Log.{Inner, find_id, has_id, regroup}
use stmp2log.Store.Log.OnDisk.{after_line-IsNoted, write_dels-Later}
use stmp2log.Store.Log.Find.{find_id-keep_all, find_id-id}
use stmp2log.Store.Log.Steps.{IsValid, counted-some}

-- The index after `delete` and the count it gives, with the files written or not.
delete-index :
    (ids : List ℕ) (i j : Inner) (n : ℕ)
    → IsValid i
    → Log.delete ids i ≡ some (n, j)
    → (j.index ≡ keep (λ m. not (has_id ids m)) i.index) × (n ≡ length i.index - length j.index)
unfolding Log.delete
delete-index ids i j n v h =
    let left = keep (λ m. not (has_id ids m)) i.index in
    let k : Inner = record i { index = left } in
    let removed = length i.index - length left in
    elim (Bool-cases (ltb 0 removed)) [
      | inl some_gone ↦
          let dels = Log.write_dels ids (some i.segs) in
          let (q, count) = counted-some removed n (Log.after_line k dels) j (rw some_gone at h) in
          let w = after_line-IsNoted k i.segs dels j v.consistent (write_dels-Later ids i.segs) q in
          (w.index, rw w.index count)
      | inr none_gone ↦
          let same = some_inj (removed, k) (n, j) (rw none_gone at h) in
          let index : j.index ≡ left = sym (ap (λ r. r.1.index) same) in
          (index, rw index (sym (ap (λ r. r.0) same)))
    ]

find_id-gone :
    (id : ℕ) (p : MetaRec → Bool) (ms : List MetaRec)
    → ((m : MetaRec) → m.id ≡ id → p m ≡ false)
    → find_id id (keep p ms) ≡ none
unfolding find_id keep
find_id-gone id p [] h = refl
find_id-gone id p (m ∷ ms) h = elim (Bool-cases (p m)) [
  | inr gone ↦ rw gone (find_id-gone id p ms h)
  | inl here ↦ elim (Bool-cases (m.id == id)) [
    | inl e ↦ let q = h m ((==_iff m.id id).0 e) in cc
    | inr e ↦ rw here (rw e (find_id-gone id p ms h))
  ]
]

find_id-keep-none :
    (id : ℕ) (p : MetaRec → Bool) (ms : List MetaRec)
    → find_id id ms ≡ none
    → find_id id (keep p ms) ≡ none
unfolding find_id keep
find_id-keep-none id p [] h = refl
find_id-keep-none id p (m ∷ ms) h = elim (Bool-cases (m.id == id)) [
  | inl e ↦ cc (rw e at h)
  | inr e ↦
      let rest = find_id-keep-none id p ms (rw e at h) in
      elim (Bool-cases (p m)) [ inl here ↦ rw here (rw e rest) | inr gone ↦ rw gone rest ]
]

has_id-id :
    (ids : List ℕ) (id : ℕ) (m : MetaRec) → m.id ≡ id → has_id ids m ≡ any (λ d. id == d) ids
unfolding has_id
has_id-id ids id m e = ap (λ x. any (λ d. x == d) ids) e

-- After `delete` no message of the given numbers is there, every other is as it was, and the count is that
-- of the messages that went.
pub delete_lem :
    (ids : List ℕ) (i j : Inner) (n id : ℕ)
    → IsValid i
    → Log.delete ids i ≡ some (n, j)
    → (find_id id j.index ≡ (if any (λ d. id == d) ids then none else find_id id i.index))
      × (n + length j.index ≡ length i.index)
delete_lem ids i j n id v h =
    let (index, count) = delete-index ids i j n v h in
    let p : MetaRec → Bool = λ m. not (has_id ids m) in
    let shorter : length j.index ≤ length i.index = rw index (length-keep p i.index) in
    let found : find_id id (keep p i.index)
        ≡ (if any (λ d. id == d) ids then none else find_id id i.index) =
      elim (Bool-cases (any (λ d. id == d) ids)) [
        | inl e ↦ rw e (find_id-gone id p i.index (λ m q. ap not (has_id-id ids id m q ∙ e)))
        | inr e ↦ elim (Option-cases (find_id id i.index)) [
          | inl f ↦ rw e (find_id-keep-none id p i.index f ∙ sym f)
          | inr (m, f) ↦
              let stays : p m ≡ true =
                ap not (has_id-id ids id m (find_id-id id i.index m f) ∙ e) in
              rw e (find_id-keep_all id p i.index m f stays ∙ sym f)
        ]
      ] in
    (rw index found, omega (arith, count, shorter))
