-- ===== src/Store/Segments/Growth.antt =====
-- crates/s2l-store/src/seg.rs: what is in the files stays there, and the length that is kept for the open body
-- file is that of the file.
use stmp2log.Prelude.{
  ℕ, zero, suc, ◌+◌, ◌≡◌, refl, sym, subst, ap, ◌∙◌, List, [], ◌∷◌, ◌++◌, append-nil, append_assoc,
  Option, some, false, ltb, length, ◌==◌, ==_refl, ==_iff, arith, Bool-cases, Option-cases, inl,
  inr, if◌then◌else◌,
}
use stmp2log.Store.Segments
use stmp2log.Store.Segments.{
  Files, Open, Segments, Json, Loc, files_at, set_files, files_or_new, last_num, next_num,
  need_roll, ensure_open,
}

pub files_at-set_files :
    (n k : ℕ) (g : Files) (fs : List (ℕ × Files))
    → files_at k (set_files n g fs) ≡ (if n == k then some g else files_at k fs)
unfolding files_at set_files
files_at-set_files n k g [] = ground arith
files_at-set_files n k g ((m, f) ∷ fs) = ground (arith, files_at-set_files n k g fs)

-- One list after more was written to it.
abbrev pub Extends {ℓ} : {A : Type ℓ} → List A → List A → Type ℓ
Extends {A = A} xs ys = (more : List A) × (ys ≡ xs ++ more)

Extends-refl {ℓ} : {A : Type ℓ} (xs : List A) → Extends xs xs
Extends-refl xs = ([], sym (append-nil xs))

Extends-trans {ℓ} : {A : Type ℓ} (xs ys zs : List A) → Extends xs ys → Extends ys zs → Extends xs zs
Extends-trans xs ys zs (m, e) (n, h) = (m ++ n, h ∙ ap (λ r. r ++ n) e ∙ append_assoc xs m n)

-- The files of a segment after more was written to them.
pub record Grown (f g : Files) : Type 0 where
  pub meta : Extends f.meta g.meta
  pub body : Extends f.body g.body
  pub att : Extends f.att g.att

pub Grown-refl : (f : Files) → Grown f f
Grown-refl f = record {
  meta = Extends-refl f.meta;
  body = Extends-refl f.body;
  att = Extends-refl f.att;
}

Grown-trans : (f g h : Files) → Grown f g → Grown g h → Grown f h
Grown-trans f g h a b = record {
  meta = Extends-trans f.meta g.meta h.meta a.meta b.meta;
  body = Extends-trans f.body g.body h.body a.body b.body;
  att = Extends-trans f.att g.att h.att a.att b.att;
}

-- A segment is still there, and grown at most.
abbrev pub GrowsAt : ℕ → Segments → Segments → Type 0
GrowsAt n s t =
    (f : Files)
    → files_at n s.files ≡ some f
    → (g : Files) × (files_at n t.files ≡ some g) × Grown f g

pub GrowsAt-trans : (n : ℕ) (s t u : Segments) → GrowsAt n s t → GrowsAt n t u → GrowsAt n s u
GrowsAt-trans n s t u a b f e =
    let (g, eg, gg) = a f e in let (h, eh, gh) = b g eg in (h, eh, Grown-trans f g h gg gh)

abbrev pub Grows : Segments → Segments → Type 0
Grows s t = (n : ℕ) → GrowsAt n s t

pub Grows-refl : (s : Segments) → Grows s s
Grows-refl s n f e = (f, e, Grown-refl f)

pub Grows-trans : (s t u : Segments) → Grows s t → Grows t u → Grows s u
Grows-trans s t u a b n = GrowsAt-trans n s t u (a n) (b n)

-- One segment set to grown files.
pub set_files-Grows :
    (k : ℕ) (g : Files) (s t : Segments)
    → t.files ≡ set_files k g s.files
    → ((f : Files) → files_at k s.files ≡ some f → Grown f g)
    → Grows s t
set_files-Grows k g s t q w n f e = elim (Bool-cases (k == n)) [
  | inl same ↦ (
    g,
    rw q (rw (files_at-set_files k n g s.files) (rw same refl)),
    w f (rw ((==_iff k n).0 same) e),
  )
  | inr other ↦ (f, rw q (rw (files_at-set_files k n g s.files) (rw other e)), Grown-refl f)
]

files_or_new-Grown : (o : Option Files) (f : Files) → o ≡ some f → Grown f (files_or_new o)
unfolding files_or_new
files_or_new-Grown o f e = rw e (Grown-refl f)

open_at-Grows : (incoming num : ℕ) (s : Segments) → Grows s (Segments.open_at incoming num s)
unfolding Segments.open_at
open_at-Grows incoming num s =
    set_files-Grows num (files_or_new (files_at num s.files)) s (Segments.open_at incoming num s)
      refl (λ f e. files_or_new-Grown (files_at num s.files) f e)

-- The open segment is there, and the lengths that are kept for its files are right.
abbrev pub IsOpen : Segments → Open → Type 0
IsOpen s c =
    (f : Files) × (files_at c.num s.files ≡ some f)
    × (c.body_len ≡ length f.body)
    × (Segments.att_start c f ≡ length f.att)

abbrev pub IsConsistent : Segments → Type 0
IsConsistent s = (c : Open) → s.cur ≡ some c → IsOpen s c

open_at-IsOpen :
    (incoming num : ℕ) (s : Segments)
    → (c : Open) × ((Segments.open_at incoming num s).cur ≡ some c)
      × IsOpen (Segments.open_at incoming num s) c
unfolding Segments.open_at Segments.att_start
open_at-IsOpen incoming num s = (
  _,
  refl,
  (
    files_or_new (files_at num s.files),
    rw (files_at-set_files num num (files_or_new (files_at num s.files)) s.files)
        (rw (==_refl num) refl),
    refl,
    refl,
  ),
)

-- What `ensure_open` leaves, if it returns.
pub record IsReady (s t : Segments) : Type 0 where
  pub grows : Grows s t
  pub cur : Open
  pub is_cur : t.cur ≡ some cur
  pub is_open : IsOpen t cur

need_roll-IsReady :
    (incoming : ℕ) (s : Segments) → IsConsistent s → need_roll incoming s.cur ≡ false → IsReady s s
unfolding need_roll
need_roll-IsReady incoming s v r = elim (Option-cases s.cur) [
  | inl e ↦ cc (rw e at r)
  | inr (c, e) ↦ record { grows = Grows-refl s; cur = c; is_cur = e; is_open = v c e }
]

open_at-IsReady : (incoming num : ℕ) (s : Segments) → IsReady s (Segments.open_at incoming num s)
open_at-IsReady incoming num s =
    let (c, e, o) = open_at-IsOpen incoming num s in
    record { grows = open_at-Grows incoming num s; cur = c; is_cur = e; is_open = o }

pub IsReady-IsConsistent : (s t : Segments) → IsReady s t → IsConsistent t
IsReady-IsConsistent s t r c e =
    let q : some r.cur ≡ some c = sym r.is_cur ∙ e in
    let same : r.cur ≡ c = cc in subst (IsOpen t) same r.is_open

pub ensure_open-IsReady :
    (fuel incoming : ℕ) (s t : Segments)
    → IsConsistent s
    → ensure_open fuel incoming s ≡ some t
    → IsReady s t
unfolding ensure_open
ensure_open-IsReady zero incoming s t v h = cc
ensure_open-IsReady (suc fuel) incoming s t v h =
    let num = next_num (last_num s.files) s.cur in
    let u = Segments.open_at incoming num s in
    let ready : IsReady s u = open_at-IsReady incoming num s in
    elim (Bool-cases (need_roll incoming s.cur)) [
      | inr r ↦
          let q : some s ≡ some t = ground (arith, r, h) in
          let same : s ≡ t = cc in subst (IsReady s) same (need_roll-IsReady incoming s v r)
      | inl r ↦
          elim (Bool-cases (
            ltb Segments.max_body_bytes
              (length (files_or_new (files_at num s.files)).body + incoming))) [
                | inl full ↦
                    let q : ensure_open fuel incoming u ≡ some t = ground (arith, r, full, h) in
                    let later =
                      ensure_open-IsReady fuel incoming u t (IsReady-IsConsistent s u ready) q in
                    record {
                      grows = Grows-trans s u t ready.grows later.grows;
                      cur = later.cur;
                      is_cur = later.is_cur;
                      is_open = later.is_open;
                    }
                | inr room ↦
                    let q : some u ≡ some t = ground (arith, r, room, h) in
                    let same : u ≡ t = cc in subst (IsReady s) same ready
              ]
    ]
