-- ===== src/Mail/Date.antt =====
-- crates/s2l-mail/src/date.rs: the days of the calendar, counted from 1970-01-01.
pub mod Calendar
use stmp2log.Prelude.{ℕ, suc, ◌+◌, ◌-◌, ◌*◌, ◌/◌, ◌%◌, leb, if◌then◌else◌}
use stmp2log.Prelude.Int.{ℤ, pos, negsuc, ◌-ℤ◌, sub_ℕ}

-- The year that begins in March.
unfoldable pub march_year : ℤ → ℕ → ℤ
unfolding ◌-ℤ◌
march_year y m = if leb m 2 then y -ℤ pos 1 else y

-- The 400 years that the year is in: how many of them lie after or before the first, and the year in them.
unfoldable pub yoe : ℤ → ℕ
yoe (pos y) = y - y / 400 * 400
yoe (negsuc n) = (n + 400) / 400 * 400 - (n + 1)

unfoldable pub doy : ℕ → ℕ → ℕ
doy m d = (153 * ((m + 9) % 12) + 2) / 5 + d - 1

unfoldable pub doe : ℕ → ℕ → ℕ
doe year day = year * 365 + year / 4 - year / 100 + day

-- `era * 146097 + doe - 719468`
unfoldable pub since_epoch : ℤ → ℕ → ℤ
since_epoch (pos y) day = sub_ℕ (y / 400 * 146097 + day) 719468
since_epoch (negsuc n) day = sub_ℕ day ((n + 400) / 400 * 146097 + 719468)

unfoldable pub days_from_civil : ℤ → ℕ → ℕ → ℤ
unfolding march_year yoe doy doe since_epoch
days_from_civil y m d = since_epoch (march_year y m) (doe (yoe (march_year y m)) (doy m d))
