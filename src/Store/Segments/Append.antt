-- ===== src/Store/Segments/Append.antt =====
-- crates/s2l-store/src/seg.rs: what `append` leaves in the files.
use stmp2log.Prelude.{
  ℕ, ◌+◌, ◌%◌, ◌^◌, ◌≤◌, ◌≡◌, refl, sym, ap, ◌∙◌, subst, List, [], ◌∷◌, ◌++◌, append-nil, some,
  length, get_elem?, ==_refl, arith, Option-cases, some_inj, inl, inr, length-append,
}
use stmp2log.Store.Record.{BodyRec, MetaLine}
use stmp2log.Store.Segments
use stmp2log.Store.Segments.{
  Files, Open, Segments, Json, Loc, files_at, set_files, files_or_new, read_exact, body_in,
  read_body_at, read_att, spots_from, joined_bytes, total, att_start, ensure_open,
}
use stmp2log.Store.Segments.Growth.{
  Grown, GrowsAt, Grows, Grows-trans, IsOpen, IsConsistent, ensure_open-IsReady, set_files-Grows,
  files_at-set_files,
}
use stmp2log.Store.Segments.Held.{
  Holds, Holds-GrowsAt, HasAtt, HasAtt-GrowsAt, spots_from-HasAt, length-joined_bytes,
}

att_after_start :
    (c d : Open) (f g : Files) (atts : List (List ℕ))
    → d.att ≡ Segments.att_after c f atts
    → g.att ≡ f.att ++ joined_bytes atts
    → att_start c f ≡ length f.att
    → att_start d g ≡ length g.att
unfolding Segments.att_after joined_bytes att_start
att_after_start c d f g [] e h a = elim (Option-cases c.att) [
  | inl none_at ↦ rw e (rw none_at refl)
  | inr (n, some_at) ↦
      rw e (rw some_at ((rw some_at at a) ∙ sym (ap length (h ∙ append-nil f.att))))
]
att_after_start c d f g (x ∷ atts) e h a =
    let joined = length-joined_bytes (x ∷ atts) in
    rw e (rw h (rw (length-append f.att (joined_bytes (x ∷ atts))) (omega (arith, a, joined))))

module _ (json : Json) (atts : List (List ℕ)) (body : List (ℕ × ℕ) → BodyRec)
    (meta : Loc → MetaLine) where
  -- The record and its attachments are in the files.
  pub record IsStored (s : Segments) (loc : Loc) : Type 0 where
    pub start : ℕ
    pub start_bound : (f : Files) × (files_at loc.seg s.files ≡ some f) × (start ≤ length f.att)
    pub record_held : Holds s loc (json.to_vec (body (spots_from start atts)))
    pub atts_held :
        (i : ℕ) (a : List ℕ)
        → get_elem? atts i ≡ some a
        → (off : ℕ) × (get_elem? (spots_from start atts) i ≡ some (off, length a % 2 ^ 32))
          × HasAtt s loc.seg off a

  pub IsStored-GrowsAt :
      (s t : Segments) (loc : Loc) → GrowsAt loc.seg s t → IsStored s loc → IsStored t loc
  IsStored-GrowsAt s t loc g r = record {
    start = r.start;
    start_bound =
        let (f, e, b) = r.start_bound in
        let (k, ek, w) = g f e in
        let (more, q) = w.att in
        (k, ek, rw q (let sum = length-append f.att more in omega (arith, b, sum)));
    record_held =
        Holds-GrowsAt s t loc (json.to_vec (body (spots_from r.start atts))) g r.record_held;
    atts_held = λ i a e.
        let (off, spot, held) = r.atts_held i a e in
        (off, spot, HasAtt-GrowsAt s t loc.seg off a g held);
  }

  -- What `append` leaves.
  pub record IsWritten (s : Segments) (loc : Loc) (t : Segments) : Type 0 where
    pub grows : Grows s t
    pub consistent : IsConsistent t
    pub stored : IsStored t loc
    pub line :
        (f : Files) × (files_at loc.seg t.files ≡ some f)
        × ((pre : List MetaLine) × (f.meta ≡ pre ++ meta loc ∷ []))

  write_to-Grown : (c : Open) (f : Files) → Grown f (Segments.write_to json atts body meta c f)
  unfolding Segments.write_to
  write_to-Grown c f = record {
    meta = (meta (Segments.loc_of json atts body meta c f) ∷ [], refl);
    body = (Segments.body_json json atts body meta c f ++ 10 ∷ [], refl);
    att = (joined_bytes atts, refl);
  }

  -- The segments after the writes to the open one.
  abbrev written : Segments → Open → Files → Segments
  written s c f = record {
    files = set_files c.num (Segments.write_to json atts body meta c f) s.files;
    cur = some (Segments.opened_after json atts body meta c f);
  }

  written-files_at :
      (s : Segments) (c : Open) (f : Files)
      → files_at c.num (written s c f).files ≡ some (Segments.write_to json atts body meta c f)
  written-files_at s c f =
      let q = files_at-set_files c.num c.num (Segments.write_to json atts body meta c f) s.files in
      rw q (rw (==_refl c.num) refl)

  written-IsOpen :
      (s : Segments) (c : Open) (f : Files)
      → c.body_len ≡ length f.body
      → att_start c f ≡ length f.att
      → IsOpen (written s c f) (Segments.opened_after json atts body meta c f)
  unfolding Segments.write_to Segments.opened_after
  written-IsOpen s c f b a = (
    Segments.write_to json atts body meta c f,
    written-files_at s c f,
    rw (length-append f.body (Segments.body_json json atts body meta c f ++ 10 ∷ [])) (
        rw (length-append (Segments.body_json json atts body meta c f) (10 ∷ []))
          (omega (arith, b))),
    att_after_start c (Segments.opened_after json atts body meta c f) f
        (Segments.write_to json atts body meta c f) atts refl refl a,
  )

  written-IsStored :
      (s : Segments) (c : Open) (f : Files)
      → c.body_len ≡ length f.body
      → att_start c f ≡ length f.att
      → IsStored (written s c f) (Segments.loc_of json atts body meta c f)
  unfolding Segments.write_to Segments.loc_of Segments.body_json
  written-IsStored s c f b a = record {
    start = att_start c f;
    start_bound = (
      Segments.write_to json atts body meta c f,
      written-files_at s c f,
      (let sum = length-append f.att (joined_bytes atts) in omega (arith, a, sum)),
    );
    record_held = (
      Segments.write_to json atts body meta c f,
      written-files_at s c f,
      (f.body, 10 ∷ [], refl, b),
      refl,
    );
    atts_held = λ i x e.
        let (off, spot, held) = spots_from-HasAt (att_start c f) f.att atts i x a e in
        (off, spot, (Segments.write_to json atts body meta c f, written-files_at s c f, held));
  }

  written-IsWritten :
      (s : Segments) (c : Open) (f : Files)
      → files_at c.num s.files ≡ some f
      → c.body_len ≡ length f.body
      → att_start c f ≡ length f.att
      → IsWritten s (Segments.loc_of json atts body meta c f) (written s c f)
  unfolding Segments.write_to Segments.loc_of
  written-IsWritten s c f e b a = record {
    grows =
        set_files-Grows c.num (Segments.write_to json atts body meta c f) s (written s c f) refl
          (λ g h.
            subst (λ k. Grown k (Segments.write_to json atts body meta c f))
              (some_inj f g (sym e ∙ h)) (write_to-Grown c f));
    consistent = λ d h. subst (IsOpen (written s c f)) (some_inj _ d h) (written-IsOpen s c f b a);
    stored = written-IsStored s c f b a;
    line = (Segments.write_to json atts body meta c f, written-files_at s c f, (f.meta, refl));
  }

  write_open-IsWritten :
      (s : Segments) (c : Open) (loc : Loc) (t : Segments)
      → IsOpen s c
      → Segments.write_open json atts body meta s (some c) ≡ some (loc, t)
      → IsWritten s loc t
  unfolding Segments.write_open files_or_new
  write_open-IsWritten s c loc t (f, e, b, a) h =
      let q : some (Segments.loc_of json atts body meta c f, written s c f) ≡ some (loc, t) =
        rw e at h in
      let same = some_inj (Segments.loc_of json atts body meta c f, written s c f) (loc, t) q in
      subst (λ p. IsWritten s p.0 p.1) same (written-IsWritten s c f e b a)

  -- Where `append` returns, it was written what was asked, and nothing else was changed.
  pub append-IsWritten :
      (s : Segments) (loc : Loc) (t : Segments)
      → IsConsistent s
      → Segments.append json atts body meta s ≡ some (loc, t)
      → IsWritten s loc t
  unfolding Segments.append Segments.append_open
  append-IsWritten s loc t v h =
      elim (Option-cases (ensure_open Segments.open_fuel (total atts + 4096) s)) [
        | inl e ↦ cc (rw e at h)
        | inr (u, e) ↦
            let r = ensure_open-IsReady Segments.open_fuel (total atts + 4096) s u v e in
            let q : Segments.write_open json atts body meta u (some r.cur) ≡ some (loc, t) =
              rw r.is_cur at (rw e at h) in
            let w = write_open-IsWritten u r.cur loc t r.is_open q in
            record {
              grows = Grows-trans s u t r.grows w.grows;
              consistent = w.consistent;
              stored = w.stored;
              line = w.line;
            }
      ]
