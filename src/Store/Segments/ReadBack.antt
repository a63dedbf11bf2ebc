-- ===== src/Store/Segments/ReadBack.antt =====
-- crates/s2l-store/src/seg.rs: what `append` writes is read back, then and later.
use stmp2log.Prelude.{
  ℕ, ◌%◌, ◌^◌, ◌<◌, ◌≡◌, refl, sym, ◌∙◌, subst, List, [], ◌∷◌, ◌++◌, append-nil, Option, some,
  false, not, keep, length, get_elem?, ◌==◌, ==_refl, arith, Option-cases, Bool-cases, some_inj,
  inl, inr, All, get_elem?-All,
}
use stmp2log.Store.Record.{BodyRec, MetaLine}
use stmp2log.Store.Segments
use stmp2log.Store.Segments.{
  Files, Open, Segments, Json, Loc, files_at, set_files, files_or_new, read_exact, body_in,
  read_body_at, read_att, spots_from, joined_bytes, total, att_start, ensure_open,
}
use stmp2log.Store.Segments.Growth.{
  Grown, Grown-refl, GrowsAt, GrowsAt-trans, IsReady-IsConsistent, Grows, Grows-trans, Grows-refl,
  IsOpen, IsConsistent, IsReady, ensure_open-IsReady, set_files-Grows, files_at-set_files,
}
use stmp2log.Store.Segments.Held.{read_att-HasAtt, read_body_at-Holds}
use stmp2log.Store.Segments.Append.{IsStored-GrowsAt, append-IsWritten}

pub files_at-keep :
    (n k : ℕ) (fs : List (ℕ × Files))
    → (n == k) ≡ false
    → files_at k (keep (λ e. not (e.0 == n)) fs) ≡ files_at k fs
unfolding files_at keep
files_at-keep n k [] h = refl
files_at-keep n k ((m, f) ∷ fs) h = ground (arith, files_at-keep n k fs h)

-- What may happen to the files between two reads of a location in the segment: writes, and the removal of
-- other segments.
pub data Later (seg : ℕ) : Segments → Segments → Type 0 where
  stay : (s : Segments) → Later seg s s
  appended :
      (s t u : Segments) (json : Json) (atts : List (List ℕ)) (body : List (ℕ × ℕ) → BodyRec)
      (meta : Loc → MetaLine) (loc : Loc)
      → Segments.append json atts body meta s ≡ some (loc, t)
      → Later seg t u
      → Later seg s u
  noted :
      (s t u : Segments) (line : MetaLine)
      → Segments.append_meta line s ≡ some t
      → Later seg t u
      → Later seg s u
  dropped :
      (s u : Segments) (n : ℕ)
      → (n == seg) ≡ false
      → Later seg (Segments.drop_segment n s) u
      → Later seg s u

drop_segment-GrowsAt :
    (n seg : ℕ) (s : Segments) → (n == seg) ≡ false → GrowsAt seg s (Segments.drop_segment n s)
unfolding Segments.drop_segment
drop_segment-GrowsAt n seg s h f e = elim (Bool-cases (Segments.is_open_at n s.cur)) [
  | inl now ↦ rw now (f, e, Grown-refl f)
  | inr closed ↦ rw closed (f, files_at-keep n seg s.files h ∙ e, Grown-refl f)
]

pub is_open_at-other :
    (n : ℕ) (c : Open) (o : Option Open)
    → o ≡ some c
    → Segments.is_open_at n o ≡ false
    → (n == c.num) ≡ false
unfolding Segments.is_open_at
is_open_at-other n c o e h = let q : (c.num == n) ≡ false = rw e at h in ground arith

pub drop_segment-IsConsistent :
    (n : ℕ) (s : Segments) → IsConsistent s → IsConsistent (Segments.drop_segment n s)
unfolding Segments.drop_segment
drop_segment-IsConsistent n s v c e = elim (Bool-cases (Segments.is_open_at n s.cur)) [
  | inl now ↦ let q : s.cur ≡ some c = rw now at e in rw now (v c q)
  | inr closed ↦
      let q : s.cur ≡ some c = rw closed at e in
      let (f, ef, b, a) = v c q in
      let other : (n == c.num) ≡ false = is_open_at-other n c s.cur q closed in
      rw closed (f, files_at-keep n c.num s.files other ∙ ef, b, a)
]

-- What `write_meta` leaves: a line more, and the open segment as it was.
write_meta-IsReady :
    (line : MetaLine) (s : Segments) (c : Open) (o : Option Open)
    → o ≡ some c
    → s.cur ≡ some c
    → IsOpen s c
    → IsReady s (Segments.write_meta line s o)
unfolding Segments.write_meta Segments.add_line files_or_new att_start
write_meta-IsReady line s c o oc sc (f, e, b, a) =
    let g : Files = record f { meta = f.meta ++ line ∷ [] } in
    let t : Segments = record s { files = set_files c.num g s.files } in
    let grown : Grown f g = record {
      meta = (line ∷ [], refl);
      body = ([], sym (append-nil f.body));
      att = ([], sym (append-nil f.att));
    } in
    let grows : Grows s t =
      set_files-Grows c.num g s t refl
        (λ k h. subst (λ r. Grown r g) (some_inj f k (sym e ∙ h)) grown) in
    let is_open : IsOpen t c =
      (g, rw (files_at-set_files c.num c.num g s.files) (rw (==_refl c.num) refl), b, a) in
    let ready : IsReady s t = record { grows = grows; cur = c; is_cur = sc; is_open = is_open } in
    let q : Segments.write_meta line s (some c) ≡ t = rw e refl in
    rw oc (subst (IsReady s) (sym q) ready)

pub append_meta-IsReady :
    (line : MetaLine) (s t : Segments)
    → IsConsistent s
    → Segments.append_meta line s ≡ some t
    → IsReady s t
unfolding Segments.append_meta Segments.append_meta_open
append_meta-IsReady line s t v h = elim (Option-cases (ensure_open Segments.open_fuel 0 s)) [
  | inl e ↦ cc (rw e at h)
  | inr (u, e) ↦
      let r = ensure_open-IsReady Segments.open_fuel 0 s u v e in
      let q : some (Segments.write_meta line u u.cur) ≡ some t = rw e at h in
      let w = write_meta-IsReady line u r.cur u.cur r.is_cur r.is_cur r.is_open in
      let ready : IsReady s (Segments.write_meta line u u.cur) = record {
        grows = Grows-trans s u (Segments.write_meta line u u.cur) r.grows w.grows;
        cur = w.cur;
        is_cur = w.is_cur;
        is_open = w.is_open;
      } in
      subst (IsReady s) (some_inj (Segments.write_meta line u u.cur) t q) ready
]

-- What is at a location stays there.
Later-GrowsAt : (seg : ℕ) (s t : Segments) → IsConsistent s → Later seg s t → GrowsAt seg s t
Later-GrowsAt seg _ u v (stay s) = Grows-refl s seg
Later-GrowsAt seg _ _ v (appended s t u json atts body meta loc h l) =
    let w = append-IsWritten json atts body meta s loc t v h in
    GrowsAt-trans seg s t u (w.grows seg) (Later-GrowsAt seg t u w.consistent l)
Later-GrowsAt seg _ _ v (noted s t u line h l) =
    let w = append_meta-IsReady line s t v h in
    GrowsAt-trans seg s t u (w.grows seg) (Later-GrowsAt seg t u (IsReady-IsConsistent s t w) l)
Later-GrowsAt seg _ _ v (dropped s u n other l) =
    let t = Segments.drop_segment n s in
    GrowsAt-trans seg s t u (drop_segment-GrowsAt n seg s other)
      (Later-GrowsAt seg t u (drop_segment-IsConsistent n s v) l)

pub Later-IsConsistent :
    (seg : ℕ) (s t : Segments) → IsConsistent s → Later seg s t → IsConsistent t
Later-IsConsistent seg _ u v (stay s) = v
Later-IsConsistent seg _ _ v (appended s t u json atts body meta loc h l) =
    Later-IsConsistent seg t u (append-IsWritten json atts body meta s loc t v h).consistent l
Later-IsConsistent seg _ _ v (noted s t u line h l) =
    Later-IsConsistent seg t u (IsReady-IsConsistent s t (append_meta-IsReady line s t v h)) l
Later-IsConsistent seg _ _ v (dropped s u n other l) =
    Later-IsConsistent seg (Segments.drop_segment n s) u (drop_segment-IsConsistent n s v) l

pub Later-trans : (seg : ℕ) (s t u : Segments) → Later seg s t → Later seg t u → Later seg s u
Later-trans seg _ t u (stay s) m = m
Later-trans seg _ t v (appended s r u json atts body meta loc h l) m =
    Later.appended s r v json atts body meta loc h (Later-trans seg r t v l m)
Later-trans seg _ t v (noted s r u line h l) m =
    Later.noted s r v line h (Later-trans seg r t v l m)
Later-trans seg _ t v (dropped s u n other l) m =
    Later.dropped s v n other (Later-trans seg (Segments.drop_segment n s) t v l m)

-- Once `append` has returned a location, the record of the body is read there, and each of the attachments
-- at its spot, whatever else was written and whichever other segments were removed since. The
-- record and the attachments have less than 2^32 bytes, the file of attachments less than 2^64, and JSON gives back the record it wrote.
pub append_round_trip :
    (json : Json) (atts : List (List ℕ)) (body : List (ℕ × ℕ) → BodyRec) (meta : Loc → MetaLine)
    (s : Segments) (loc : Loc) (t u : Segments)
    → IsConsistent s
    → Segments.append json atts body meta s ≡ some (loc, t)
    → Later loc.seg t u
    → ((n : ℕ)
        → n < 2 ^ 64
        → json.from_slice (json.to_vec (body (spots_from n atts)))
          ≡ some (body (spots_from n atts)))
    → ((n : ℕ) → n < 2 ^ 64 → length (json.to_vec (body (spots_from n atts))) < 2 ^ 32)
    → ((f : Files) → files_at loc.seg u.files ≡ some f → length f.att < 2 ^ 64)
    → All (λ a. length a < 2 ^ 32) atts
    → (spots : List (ℕ × ℕ)) × (read_body_at json u loc ≡ some (body spots))
      × ((i : ℕ) (a : List ℕ)
          → get_elem? atts i ≡ some a
          → (off : ℕ) × (get_elem? spots i ≡ some (off, length a % 2 ^ 32))
            × (read_att u loc.seg off (length a % 2 ^ 32) ≡ some a))
append_round_trip json atts body meta s loc t u v h l law small space smalls =
    let w = append-IsWritten json atts body meta s loc t v h in
    let r =
      IsStored-GrowsAt json atts body meta t u loc (Later-GrowsAt loc.seg t u w.consistent l)
        w.stored in
    let spots = spots_from r.start atts in
    let (f, ef, bound) = r.start_bound in
    let room = space f ef in
    let start_small : r.start < 2 ^ 64 = omega (arith, bound, room) in
    let read =
      read_body_at-Holds json u loc (json.to_vec (body spots)) (small r.start start_small)
        r.record_held in
    (
      spots,
      read ∙ law r.start start_small,
      λ i a e.
          let (off, spot, held) = r.atts_held i a e in
          (
            off,
            spot,
            read_att-HasAtt u loc.seg off a
                (get_elem?-All (λ x. length x < 2 ^ 32) atts i a smalls e) held,
          ),
    )
