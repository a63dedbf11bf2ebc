-- ===== src/Mail/Date/Calendar.antt =====
-- crates/s2l-mail/src/date.rs: the count of days against the calendar.
use stmp2log.Prelude.{
  ℕ, zero, suc, ◌+◌, ◌-◌, ◌*◌, ◌/◌, ◌%◌, ◌≤◌, ◌<◌, ◌≡◌, refl, sym, subst, ==_iff, ap, ◌∙◌, Bool,
  false, not, ◌&&◌, ◌||◌, leb, ltb, ◌==◌, arith, Bool-cases, inl, inr, if◌then◌else◌,
}
use stmp2log.Prelude.Int.{ℤ, pos, negsuc, ◌-ℤ◌, sub_ℕ}
use stmp2log.Mail.Date
use stmp2log.Mail.Date.{days_from_civil, doy, doe, yoe}

abbrev pub is_leap : ℕ → Bool
is_leap y = y % 4 == 0 && (not (y % 100 == 0) || y % 400 == 0)

-- The days of whole years from March of the year 0 on.
unfoldable year_days : ℕ → ℕ
year_days y =
    y / 400 * 146097
    + ((y - y / 400 * 400) * 365 + (y - y / 400 * 400) / 4 - (y - y / 400 * 400) / 100)

year_days-suc : (y : ℕ) → year_days (suc y) ≡ year_days y + (if is_leap (suc y) then 366 else 365)
unfolding year_days
year_days-suc y = ground arith

abbrev pub month_days : ℕ → ℕ → ℕ
month_days y m =
    if m == 2
    then (if is_leap y then 29 else 28)
    else if m == 4 || (m == 6 || (m == 9 || m == 11))
    then 30
    else 31

abbrev march : ℕ → ℕ → ℕ
march y m = if leb m 2 then y - 1 else y

-- The days from March of the year 0 on.
abbrev total : ℕ → ℕ → ℕ → ℕ
total y m d = year_days (march y m) + doy m d

total-next_day : (y m d : ℕ) → 1 ≤ d → total y m (suc d) ≡ suc (total y m d)
unfolding doy
total-next_day y m d h = omega (arith, h)

doy-next_month :
    (y m : ℕ) → 1 ≤ m → m < 12 → (m == 2) ≡ false → doy (suc m) 1 ≡ suc (doy m (month_days y m))
unfolding doy
doy-next_month y m a b c = ground (arith, a, b, c)

total-february : (y : ℕ) → 1 ≤ y → total y 3 1 ≡ suc (total y 2 (month_days y 2))
unfolding doy
total-february zero h = ground (arith, h)
total-february (suc z) h = ground (arith, year_days-suc z)

total-next_month :
    (y m : ℕ) → 1 ≤ y → 1 ≤ m → m < 12 → total y (suc m) 1 ≡ suc (total y m (month_days y m))
total-next_month y m h a b = elim (Bool-cases (m == 2)) [
  | inl e ↦
      let two : 2 ≡ m = sym ((==_iff m 2).0 e) in
      subst (λ k. total y (suc k) 1 ≡ suc (total y k (month_days y k))) two (total-february y h)
  | inr e ↦
      let days = doy-next_month y m a b e in
      let same : march y (suc m) ≡ march y m = ground (arith, a, e) in
      let years = ap year_days same in omega (arith, days, years)
]

total-next_year : (y : ℕ) → total (suc y) 1 1 ≡ suc (total y 12 31)
unfolding doy
total-next_year y = ground arith

-- One more.
abbrev pub plus_one : ℤ → ℤ
plus_one (pos n) = pos (suc n)
plus_one (negsuc zero) = pos 0
plus_one (negsuc (suc n)) = negsuc n

sub_ℕ-suc : (a b : ℕ) → sub_ℕ (suc a) b ≡ plus_one (sub_ℕ a b)
sub_ℕ-suc a b = ground arith

-- The day after a day of the calendar.
abbrev pub next_day : ℕ → ℕ → ℕ → ℕ × (ℕ × ℕ)
next_day y m d =
    if ltb d (month_days y m)
    then (y, (m, suc d))
    else if ltb m 12
    then (y, (suc m, 1))
    else (suc y, (1, 1))

march_year-march : (y m : ℕ) → 1 ≤ y → Date.march_year (pos y) m ≡ pos (march y m)
unfolding Date.march_year ◌-ℤ◌
march_year-march zero m h = ground (arith, h)
march_year-march (suc z) m h = ground arith

since_epoch-year_days :
    (z t : ℕ) → Date.since_epoch (pos z) (doe (yoe (pos z)) t) ≡ sub_ℕ (year_days z + t) 719468
unfolding Date.since_epoch doe yoe year_days
since_epoch-year_days z t = ap (λ n. sub_ℕ n 719468) (omega arith)

days_from_civil-total :
    (y m d : ℕ) → 1 ≤ y → days_from_civil (pos y) m d ≡ sub_ℕ (total y m d) 719468
unfolding days_from_civil
days_from_civil-total y m d h =
    ap (λ z. Date.since_epoch z (doe (yoe z) (doy m d))) (march_year-march y m h)
    ∙ since_epoch-year_days (march y m) (doy m d)

ends : (n d : ℕ) → d ≤ n → ltb d n ≡ false → n ≡ d
ends n d h l = ground (arith, h, l)

next_day-year : (y m d : ℕ) → 1 ≤ y → 1 ≤ (next_day y m d).0
next_day-year y m d h = elim (Bool-cases (ltb d (month_days y m))) [
  | inl l ↦ rw l h
  | inr l ↦ elim (Bool-cases (ltb m 12)) [
    | inl k ↦ rw l (rw k h)
    | inr k ↦ rw l (rw k (omega arith))
  ]
]

epoch : days_from_civil (pos 1970) 1 1 ≡ pos 0
unfolding days_from_civil
epoch = refl

total-december : (y m d : ℕ) → 12 ≡ m → month_days y m ≡ d → total (suc y) 1 1 ≡ suc (total y m d)
total-december y m d t e =
    subst (λ n. total (suc y) 1 1 ≡ suc (total y m n)) e
      (subst (λ k. total (suc y) 1 1 ≡ suc (total y k (month_days y k))) t (total-next_year y))

total-step :
    (y m d : ℕ)
    → 1 ≤ y
    → 1 ≤ m
    → m ≤ 12
    → 1 ≤ d
    → d ≤ month_days y m
    → total (next_day y m d).0 (next_day y m d).1.0 (next_day y m d).1.1 ≡ suc (total y m d)
total-step y m d a b c e f = elim (Bool-cases (ltb d (month_days y m))) [
  | inl l ↦ rw l (total-next_day y m d e)
  | inr l ↦
      let last : month_days y m ≡ d = ends (month_days y m) d f l in
      elim (Bool-cases (ltb m 12)) [
        | inl k ↦ rw l (
            rw k (
              subst (λ n. total y (suc m) 1 ≡ suc (total y m n)) last
                (total-next_month y m a b (ground (arith, k)))))
        | inr k ↦
            let twelve : 12 ≡ m = ground (arith, c, k) in
            rw l (rw k (total-december y m d twelve last))
      ]
]

-- From the first day of the year 1 on the day after has the number after; 1970-01-01 has the number 0. So it
-- counts the days of the calendar, with its leap years.
pub days_from_civil-next_day :
    (y m d : ℕ)
    → 1 ≤ y
    → 1 ≤ m
    → m ≤ 12
    → 1 ≤ d
    → d ≤ month_days y m
    → (days_from_civil (pos (next_day y m d).0) (next_day y m d).1.0 (next_day y m d).1.1
        ≡ plus_one (days_from_civil (pos y) m d))
      × (days_from_civil (pos 1970) 1 1 ≡ pos 0)
days_from_civil-next_day y m d a b c e f =
    let n = next_day y m d in
    let later : 1 ≤ n.0 = next_day-year y m d a in
    (
      days_from_civil-total n.0 n.1.0 n.1.1 later
          ∙ ap (λ k. sub_ℕ k 719468) (total-step y m d a b c e f)
          ∙ sub_ℕ-suc (total y m d) 719468
          ∙ ap plus_one (sym (days_from_civil-total y m d a)),
      epoch,
    )
