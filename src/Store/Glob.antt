-- ===== src/Store/Glob.antt =====
-- `glob` of crates/s2l-store/src/match_.rs: the backtracking loop over two index pairs, on code
-- points. `usize` has 64 bits.
pub mod Reference
pub mod Greedy
pub mod Correct
use stmp2log.Prelude.{
  ℕ, zero, suc, ◌+◌, ◌-◌, ◌*◌, ◌^◌, List, [], ◌∷◌, Option, none, some, Bool, true, false, not, ◌&&◌,
  length, ltb, ◌==◌, if◌then◌else◌,
}
use stmp2log.Prelude.Text.{Text}

abbrev pub star_char : ℕ
star_char = b'*'

abbrev pub usize_max : ℕ
usize_max = 2 ^ 64 - 1

-- `v[i]`, read by the code only where `i` is in range.
unfoldable pub at : Text → ℕ → ℕ
at [] i = 0
at (c ∷ s) zero = c
at (c ∷ s) (suc i) = at s i

-- The loop behind the main one, with the rounds that it can still make.
unfoldable pub skip_stars : ℕ → Text → ℕ → ℕ
unfolding at
skip_stars zero p pi = pi
skip_stars (suc n) p pi =
    let rest = skip_stars n p (pi + 1) in
    if ltb pi (length p) && at p pi == star_char then rest else pi

-- The main loop, on fuel; `none` means that the fuel ran out.
unfoldable pub scan : ℕ → Text → Text → ℕ → ℕ → ℕ → ℕ → Option Bool
unfolding at skip_stars
scan zero h p hi pi star star_hi = none
scan (suc f) h p hi pi star star_hi =
    let advance = scan f h p (hi + 1) (pi + 1) star star_hi in
    let remember = scan f h p hi (pi + 1) pi hi in
    let backtrack = scan f h p (star_hi + 1) (star + 1) star (star_hi + 1) in
    if ltb hi (length h)
    then (if ltb pi (length p) && at p pi == at h hi
        then advance
        else if ltb pi (length p) && at p pi == star_char
        then remember
        else if not (star == usize_max)
        then backtrack
        else some false)
    else some (skip_stars (length p - pi) p pi == length p)

-- Enough for every text and pattern (`Correct`).
abbrev pub fuel_for : Text → Text → ℕ
fuel_for h p = (length h + 2) * (length h + 1) + length h + length p + 2

unfoldable pub glob : Text → Text → Option Bool
unfolding scan
glob hay pat = scan (fuel_for hay pat) hay pat 0 0 usize_max 0
