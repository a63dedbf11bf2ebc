-- ===== src/Store/Segments/Opening.antt =====
-- crates/s2l-store/src/seg.rs: when `ensure_open` comes to an end.
use stmp2log.Prelude.{
  ℕ, zero, suc, ◌+◌, ◌%◌, ◌^◌, ◌≤◌, ◌<◌, max, ◌≡◌, refl, List, [], ◌∷◌, Option, none, some, true,
  false, All, ltb, length, ◌==◌, arith, Bool-cases, Option-cases, inl, inr,
}
use stmp2log.Store.Segments
use stmp2log.Store.Segments.{
  need_roll, Files, Open, Segments, files_at, set_files, last_num, next_num, ensure_open,
}

-- The numbers that leave room for as many more of 32 bits.
abbrev pub Room : ℕ → ℕ × Files → Type 0
Room k e = e.0 + k < 2 ^ 32

pub All-Room_le : (j k : ℕ) (fs : List (ℕ × Files)) → j ≤ k → All (Room k) fs → All (Room j) fs
All-Room_le j k [] h a = tt
All-Room_le j k (e ∷ fs) h (b, a) = (omega arith, All-Room_le j k fs h a)

abbrev UpTo : ℕ → ℕ × Files → Type 0
UpTo k e = e.0 ≤ k

All-UpTo : (j k : ℕ) (fs : List (ℕ × Files)) → j ≤ k → All (UpTo j) fs → All (UpTo k) fs
All-UpTo j k [] h a = tt
All-UpTo j k (e ∷ fs) h (b, a) = (omega arith, All-UpTo j k fs h a)

last_num-none : (fs : List (ℕ × Files)) → last_num fs ≡ none → fs ≡ []
unfolding last_num
last_num-none [] h = refl
last_num-none ((m, f) ∷ fs) h = elim (Option-cases (last_num fs)) [
  | inl e ↦ cc (rw e at h)
  | inr (k, e) ↦ cc (rw e at h)
]

last_num-UpTo : (fs : List (ℕ × Files)) (k : ℕ) → last_num fs ≡ some k → All (UpTo k) fs
unfolding last_num
last_num-UpTo [] k h = tt
last_num-UpTo ((m, f) ∷ fs) k h = elim (Option-cases (last_num fs)) [
  | inl e ↦ (ground (arith, rw e at h), rw (last_num-none fs e) tt)
  | inr (j, e) ↦
      let q : max m j ≡ k = ground (arith, rw e at h) in
      (omega arith, All-UpTo j k fs (omega arith) (last_num-UpTo fs j e))
]

last_num-Room :
    (r : ℕ) (fs : List (ℕ × Files)) (k : ℕ)
    → All (Room r) fs
    → last_num fs ≡ some k
    → k + r < 2 ^ 32
unfolding last_num
last_num-Room r [] k a h = cc
last_num-Room r ((m, f) ∷ fs) k (b, a) h = elim (Option-cases (last_num fs)) [
  | inl e ↦ ground (arith, rw e at h)
  | inr (j, e) ↦
      let q : max m j ≡ k = ground (arith, rw e at h) in
      let i : j + r < 2 ^ 32 = last_num-Room r fs j a e in omega arith
]

files_at-above : (k : ℕ) (fs : List (ℕ × Files)) → All (UpTo k) fs → files_at (k + 1) fs ≡ none
unfolding files_at
files_at-above k [] a = refl
files_at-above k ((m, f) ∷ fs) (b, a) =
    let e : (m == k + 1) ≡ false = ground arith in rw e (files_at-above k fs a)

nothing_at : (n : ℕ) → files_at n [] ≡ none
unfolding files_at
nothing_at n = refl

-- The number after the last is free.
next_num-free :
    (c : Open) (fs : List (ℕ × Files))
    → All (Room 1) fs
    → files_at (next_num (last_num fs) (some c)) fs ≡ none
unfolding next_num
next_num-free c fs a = elim (Option-cases (last_num fs)) [
  | inl e ↦ rw (last_num-none fs e) (nothing_at _)
  | inr (k, e) ↦
      let s : k + 1 < 2 ^ 32 = last_num-Room 1 fs k a e in
      let w : (k + 1) % 2 ^ 32 ≡ k + 1 = omega arith in
      rw e (rw w (files_at-above k fs (last_num-UpTo fs k e)))
]

rolls :
    (incoming : ℕ) (o : Option Open)
    → Segments.max_body_bytes < incoming
    → need_roll incoming o ≡ true
unfolding need_roll
rolls incoming none h = refl
rolls incoming (some c) h = ground arith

-- An `ensure_open` for more than a body file may hold never comes to an end, whatever is open: each new
-- segment is full for it before anything is written.
pub ensure_open_diverges :
    (fuel incoming : ℕ) (s : Segments)
    → Segments.max_body_bytes < incoming
    → ensure_open fuel incoming s ≡ none
unfolding ensure_open need_roll
ensure_open_diverges zero incoming s h = refl
ensure_open_diverges (suc fuel) incoming s h =
    let num = next_num (last_num s.files) s.cur in
    let more : need_roll incoming s.cur ≡ true = rolls incoming s.cur h in
    let full : ltb Segments.max_body_bytes
          (length (Segments.files_or_new (files_at num s.files)).body + incoming)
        ≡ true =
      ground arith in
    rw more (rw full (ensure_open_diverges fuel incoming (Segments.open_at incoming num s) h))

pub set_files-Room :
    (k n : ℕ) (g : Files) (fs : List (ℕ × Files))
    → n + k < 2 ^ 32
    → All (Room k) fs
    → All (Room k) (set_files n g fs)
unfolding set_files
set_files-Room k n g [] h a = (h, tt)
set_files-Room k n g ((m, f) ∷ fs) h (b, a) = ground (arith, set_files-Room k n g fs h a)

open_at-Room :
    (k incoming num : ℕ) (s : Segments)
    → num + k < 2 ^ 32
    → All (Room k) s.files
    → All (Room k) (Segments.open_at incoming num s).files
unfolding Segments.open_at
open_at-Room k incoming num s h a =
    set_files-Room k num (Segments.files_or_new (files_at num s.files)) s.files h a

next_num-Room :
    (k : ℕ) (c : Open) (fs : List (ℕ × Files))
    → k + 1 < 2 ^ 32
    → All (Room (k + 1)) fs
    → next_num (last_num fs) (some c) + k < 2 ^ 32
unfolding next_num
next_num-Room k c fs h a = elim (Option-cases (last_num fs)) [
  | inl e ↦ rw e (omega (arith, h))
  | inr (n, e) ↦
      let s : n + (k + 1) < 2 ^ 32 = last_num-Room (k + 1) fs n a e in
      let w : (n + 1) % 2 ^ 32 ≡ n + 1 = omega arith in rw e (rw w (omega (arith, s)))
]

ensure_open-open :
    (k fuel incoming : ℕ) (s : Segments) (c : Open)
    → incoming ≤ Segments.max_body_bytes
    → k + 1 < 2 ^ 32
    → All (Room (k + 1)) s.files
    → s.cur ≡ some c
    → (t : Segments) × (ensure_open (suc fuel) incoming s ≡ some t) × All (Room k) t.files
unfolding ensure_open
ensure_open-open k fuel incoming s c h l a e = elim (Bool-cases (need_roll incoming s.cur)) [
  | inr r ↦ (s, rw r refl, All-Room_le k (k + 1) s.files (omega arith) a)
  | inl r ↦
      let num = next_num (last_num s.files) s.cur in
      let one = All-Room_le 1 (k + 1) s.files (omega arith) a in
      let free : files_at num s.files ≡ none = rw e (next_num-free c s.files one) in
      let room : num + k < 2 ^ 32 = rw e (next_num-Room k c s.files l a) in
      (
        Segments.open_at incoming num s,
        rw r (rw free (ground arith)),
        open_at-Room k incoming num s room (All-Room_le k (k + 1) s.files (omega arith) a),
      )
]

first_num-Room :
    (k : ℕ) (fs : List (ℕ × Files))
    → k + 1 < 2 ^ 32
    → All (Room k) fs
    → next_num (last_num fs) none + k < 2 ^ 32
unfolding next_num
first_num-Room k fs h a = elim (Option-cases (last_num fs)) [
  | inl e ↦ rw e (omega (arith, h))
  | inr (n, e) ↦ rw e (last_num-Room k fs n a e)
]

open_at-cur :
    (incoming num : ℕ) (s : Segments)
    → (c : Open) × ((Segments.open_at incoming num s).cur ≡ some c)
unfolding Segments.open_at
open_at-cur incoming num s = (_, refl)

first_returns :
    (k fuel incoming : ℕ) (s : Segments)
    → incoming ≤ Segments.max_body_bytes
    → k + 2 < 2 ^ 32
    → All (Room (k + 1)) s.files
    → s.cur ≡ none
    → (t : Segments) × (ensure_open (suc (suc fuel)) incoming s ≡ some t) × All (Room k) t.files
unfolding ensure_open need_roll
first_returns k fuel incoming s h l a e =
    let num = next_num (last_num s.files) s.cur in
    let t = Segments.open_at incoming num s in
    let first : num + (k + 1) < 2 ^ 32 =
      rw e (first_num-Room (k + 1) s.files (omega (arith, l)) a) in
    let small : All (Room (k + 1)) t.files = open_at-Room (k + 1) incoming num s first a in
    let more : need_roll incoming s.cur ≡ true = rw e refl in
    let (c, open_now) = open_at-cur incoming num s in
    let (u, returned, left) =
      ensure_open-open k fuel incoming t c h (omega (arith, l)) small open_now in
    elim (Bool-cases (
      ltb Segments.max_body_bytes
        (length (Segments.files_or_new (files_at num s.files)).body + incoming))) [
          | inl full ↦ (u, ground (arith, more, full, returned), left)
          | inr room ↦
              (t, ground (arith, more, room), All-Room_le k (k + 1) t.files (omega arith) small)
        ]

-- For no more than a body file may hold, `ensure_open` returns within two calls, if the numbers of the
-- segments leave room for one more, and takes one at most.
pub ensure_open_returns :
    (k fuel incoming : ℕ) (s : Segments)
    → incoming ≤ Segments.max_body_bytes
    → k + 2 < 2 ^ 32
    → All (Room (k + 1)) s.files
    → (t : Segments) × (ensure_open (suc (suc fuel)) incoming s ≡ some t) × All (Room k) t.files
unfolding need_roll
ensure_open_returns k fuel incoming s h l a = elim (Option-cases s.cur) [
  | inr (c, e) ↦ ensure_open-open k (suc fuel) incoming s c h (omega (arith, l)) a e
  | inl e ↦ first_returns k fuel incoming s h l a e
]
