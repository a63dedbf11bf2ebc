-- ===== src/Store/Segments/Held.antt =====
-- crates/s2l-store/src/seg.rs: what stands in the files at a location is read there, also after more was
-- written.
use stmp2log.Prelude.{
  ℕ, zero, suc, ◌+◌, ◌%◌, ◌^◌, ◌<◌, ◌≡◌, refl, ap, ◌∙◌, subst, List, [], ◌∷◌, ◌++◌, append_assoc,
  some, true, length, leb, get_elem?, arith, length-append, drop-append, take-append,
}
use stmp2log.Store.Segments
use stmp2log.Store.Segments.{
  Files, Open, Segments, Json, Loc, files_at, set_files, files_or_new, read_exact, body_in,
  read_body_at, read_att, spots_from, joined_bytes, total, att_start, ensure_open,
}
use stmp2log.Store.Segments.Growth.{Extends, GrowsAt}

-- The bytes stand in the list from an offset on.
abbrev pub HasAt : ℕ → List ℕ → List ℕ → Type 0
HasAt off b xs = (pre : List ℕ) × (post : List ℕ) × (xs ≡ pre ++ (b ++ post)) × (off ≡ length pre)

pub HasAt-Extends : (off : ℕ) (b xs ys : List ℕ) → Extends xs ys → HasAt off b xs → HasAt off b ys
HasAt-Extends off b xs ys (more, e) (pre, post, h, o) = (
  pre,
  post ++ more,
  e
      ∙ ap (λ r. r ++ more) h
      ∙ append_assoc pre (b ++ post) more
      ∙ ap (λ r. pre ++ r) (append_assoc b post more),
  o,
)

read_exact-HasAt :
    (off : ℕ) (b xs : List ℕ) → HasAt off b xs → read_exact off (length b) xs ≡ some b
unfolding read_exact
read_exact-HasAt off b xs (pre, post, h, o) =
    let room : leb (length pre + length b) (length (pre ++ (b ++ post))) ≡ true =
      ground (arith, length-append pre (b ++ post), length-append b post) in
    rw h (rw o (rw room (rw (drop-append pre (b ++ post)) (ap some (take-append b post)))))

-- The record of the location is in its body file.
abbrev pub Holds : Segments → Loc → List ℕ → Type 0
Holds s loc b =
    (f : Files) × (files_at loc.seg s.files ≡ some f)
    × HasAt loc.off b f.body
    × (loc.len ≡ length b % 2 ^ 32)

pub Holds-GrowsAt :
    (s t : Segments) (loc : Loc) (b : List ℕ) → GrowsAt loc.seg s t → Holds s loc b → Holds t loc b
Holds-GrowsAt s t loc b g (f, e, h, l) =
    let (k, ek, w) = g f e in (k, ek, HasAt-Extends loc.off b f.body k.body w.body h, l)

pub read_body_at-Holds :
    (json : Json) (s : Segments) (loc : Loc) (b : List ℕ)
    → length b < 2 ^ 32
    → Holds s loc b
    → read_body_at json s loc ≡ json.from_slice b
unfolding read_body_at body_in Segments.parsed
read_body_at-Holds json s loc b small (f, e, h, l) =
    let len : loc.len ≡ length b = omega (arith, l) in
    rw e (rw len (rw (read_exact-HasAt loc.off b f.body h) refl))

-- An attachment is in the file of its segment.
abbrev pub HasAtt : Segments → ℕ → ℕ → List ℕ → Type 0
HasAtt s seg off a = (f : Files) × (files_at seg s.files ≡ some f) × HasAt off a f.att

pub HasAtt-GrowsAt :
    (s t : Segments) (seg off : ℕ) (a : List ℕ)
    → GrowsAt seg s t
    → HasAtt s seg off a
    → HasAtt t seg off a
HasAtt-GrowsAt s t seg off a g (f, e, h) =
    let (k, ek, w) = g f e in (k, ek, HasAt-Extends off a f.att k.att w.att h)

pub read_att-HasAtt :
    (s : Segments) (seg off : ℕ) (a : List ℕ)
    → length a < 2 ^ 32
    → HasAtt s seg off a
    → read_att s seg off (length a % 2 ^ 32) ≡ some a
unfolding read_att Segments.att_in
read_att-HasAtt s seg off a small (f, e, h) =
    let len : length a % 2 ^ 32 ≡ length a = omega arith in
    rw e (rw len (read_exact-HasAt off a f.att h))

-- The attachments that are joined stand at their spots.
pub spots_from-HasAt :
    (at : ℕ) (pre : List ℕ) (atts : List (List ℕ)) (i : ℕ) (a : List ℕ)
    → at ≡ length pre
    → get_elem? atts i ≡ some a
    → (off : ℕ) × (get_elem? (spots_from at atts) i ≡ some (off, length a % 2 ^ 32))
      × HasAt off a (pre ++ joined_bytes atts)
unfolding spots_from joined_bytes
spots_from-HasAt at pre [] i a h e = cc
spots_from-HasAt at pre (x ∷ atts) zero a h e =
    let same : x ≡ a = cc in
    (
      at,
      ap (λ b. some (at, length b % 2 ^ 32)) same,
      (pre, joined_bytes atts, ap (λ b. pre ++ (b ++ joined_bytes atts)) same, h),
    )
spots_from-HasAt at pre (x ∷ atts) (suc i) a h e =
    let next : at + length x ≡ length (pre ++ x) = omega (arith, h, length-append pre x) in
    let (off, spot, held) = spots_from-HasAt (at + length x) (pre ++ x) atts i a next e in
    (off, spot, subst (HasAt off a) (append_assoc pre x (joined_bytes atts)) held)

pub length-joined_bytes : (atts : List (List ℕ)) → length (joined_bytes atts) ≡ total atts
unfolding joined_bytes total
length-joined_bytes [] = refl
length-joined_bytes (x ∷ atts) =
    omega (arith, length-append x (joined_bytes atts), length-joined_bytes atts)
