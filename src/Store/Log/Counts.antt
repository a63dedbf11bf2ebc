-- ===== src/Store/Log/Counts.antt =====
-- crates/s2l-store/src/lib.rs: the counts of `stats` add up.
use stmp2log.Prelude.{
  ℕ, zero, suc, ◌+◌, ◌*◌, ◌≤◌, ◌<◌, ◌≡◌, refl, ap, ◌∙◌, List, [], ◌∷◌, map, Bool, ◌&&◌, keep,
  length, length-take, arith, Bool-cases, inl, inr, if◌then◌else◌,
}
use stmp2log.Prelude.Int.{ℤ, pos, leb_ℤ, ◌-ℤ◌}
use stmp2log.Prelude.Text.{Text}
use stmp2log.Store.Record.{MetaRec}
use stmp2log.Store.Segments.{Files, sum_of}
use stmp2log.Store.Log.{Inner}
use stmp2log.Store.Log.Stats
use stmp2log.Store.Log.Stats.{
  Stats, stats, count_in, count_keys, text_ltb, add_at, add_hour, add_hours, no_hours,
}

abbrev pub counts : List (Text × ℕ) → List ℕ
counts m = map (λ e. e.1) m

sum-count_in :
    (k : Text) (m : List (Text × ℕ)) → sum_of (counts (count_in k m)) ≡ suc (sum_of (counts m))
unfolding count_in sum_of
sum-count_in k [] = omega arith
sum-count_in k ((j, n) ∷ m) = ground (arith, sum-count_in k m)

sum-count_keys :
    (ks : List Text) (m : List (Text × ℕ))
    → sum_of (counts (count_keys ks m)) ≡ length ks + sum_of (counts m)
unfolding count_keys
sum-count_keys [] m = omega arith
sum-count_keys (k ∷ ks) m = omega (arith, sum-count_keys ks (count_in k m), sum-count_in k m)

length-map_keys : (f : MetaRec → Text) (ms : List MetaRec) → length (map f ms) ≡ length ms
length-map_keys f [] = refl
length-map_keys f (m ∷ ms) = ap suc (length-map_keys f ms)

sum-add_at : (i : ℕ) (ns : List ℕ) → i < length ns → sum_of (add_at i ns) ≡ suc (sum_of ns)
unfolding add_at sum_of
sum-add_at i [] h = omega (arith, h)
sum-add_at zero (n ∷ ns) h = omega arith
sum-add_at (suc i) (n ∷ ns) h = let rest = sum-add_at i ns (omega (arith, h)) in omega (arith, rest)

length-add_at : (i : ℕ) (ns : List ℕ) → length (add_at i ns) ≡ length ns
unfolding add_at
length-add_at i [] = refl
length-add_at zero (n ∷ ns) = refl
length-add_at (suc i) (n ∷ ns) = ap suc (length-add_at i ns)

-- Whether a time is in the last day.
abbrev pub in_day : ℤ → ℤ → Bool
in_day now ts = leb_ℤ (now -ℤ pos (24 * 3600 * 1000)) ts && leb_ℤ ts now

add_hour-parts :
    (now ts : ℤ) (hours : List ℕ)
    → length hours ≡ 24
    → (length (add_hour now ts hours) ≡ 24)
      × (sum_of (add_hour now ts hours)
          ≡ (if in_day now ts then suc (sum_of hours) else sum_of hours))
unfolding add_hour
add_hour-parts now ts hours h = elim (Bool-cases (in_day now ts)) [
  | inr e ↦ rw e (h, refl)
  | inl e ↦ rw e (length-add_at _ hours ∙ h, sum-add_at _ hours (omega (arith, h)))
]

add_hours-parts :
    (now : ℤ) (ms : List MetaRec) (hours : List ℕ)
    → length hours ≡ 24
    → (length (add_hours now ms hours) ≡ 24)
      × (sum_of (add_hours now ms hours) ≡ sum_of hours + length (keep (λ m. in_day now m.ts) ms))
unfolding add_hours keep
add_hours-parts now [] hours h = (h, omega arith)
add_hours-parts now (m ∷ ms) hours h =
    let (l, s) = add_hour-parts now m.ts hours h in
    let (k, t) = add_hours-parts now ms (add_hour now m.ts hours) l in
    let left = keep (λ x. in_day now x.ts) ms in
    elim (Bool-cases (in_day now m.ts)) [
      | inl e ↦
          let r = s ∙ ap (λ b. if b then suc (sum_of hours) else sum_of hours) e in
          let c = ap (λ b. length (if b then m ∷ left else left)) e in (k, omega (arith, r, t, c))
      | inr e ↦
          let r = s ∙ ap (λ b. if b then suc (sum_of hours) else sum_of hours) e in
          let c = ap (λ b. length (if b then m ∷ left else left)) e in (k, omega (arith, r, t, c))
    ]

sum_no_hours : sum_of no_hours ≡ 0
unfolding sum_of
sum_no_hours = refl

sum_none : sum_of (counts []) ≡ 0
unfolding sum_of
sum_none = refl

-- The counts of the groups add up to the number of the messages; the counts of the 24 hours to that of the
-- messages of the last day; ten senders are named at most.
pub stats_lem :
    (size : Files → ℕ) (now : ℤ) (i : Inner)
    → ((stats size now i).total ≡ length i.index)
      × (sum_of (counts (stats size now i).by_group) ≡ length i.index)
      × (length (stats size now i).last_24h ≡ 24)
      × (sum_of (stats size now i).last_24h ≡ length (keep (λ m. in_day now m.ts) i.index))
      × (length (stats size now i).top_senders ≤ 10)
unfolding stats
stats_lem size now i =
    let (hours, day) = add_hours-parts now i.index no_hours refl in
    let groups = map (λ m. Stats.group_key m.group) i.index in
    let sums = sum-count_keys groups [] in
    let same = length-map_keys (λ m. Stats.group_key m.group) i.index in
    let zero_hours : sum_of no_hours ≡ 0 = sum_no_hours in
    let top = length-take 10 (Stats.sort_often (count_keys (map (λ m. m.from) i.index) [])) in
    (
      refl,
      omega (arith, sums, same, sum_none),
      hours,
      omega (arith, day, zero_hours),
      omega (arith, top),
    )
