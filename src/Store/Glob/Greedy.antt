-- ===== src/Store/Glob/Greedy.antt =====
-- The rounds of the loop of `Glob`, one lemma for each branch, and its reads as heads of suffixes.
use native.Mathlib.Numerals.{add-one}
use stmp2log.Prelude.{
  ℕ, zero, suc, ◌+◌, ◌-◌, ◌<◌, ◌≤◌, ◌≡◌, ◌≢◌, refl, [], ◌∷◌, some, true, false, ◌&&◌, length, drop,
  ltb, ◌==◌, arith,
}
use stmp2log.Prelude.Text.{Text}
use stmp2log.Store.Glob.Reference.{matches, Lacks}
use stmp2log.Store.Glob.{at, skip_stars, scan, star_char, usize_max}

-- A read inside the text is the head of the suffix there.
pub drop-at : (s : Text) (i : ℕ) → i < length s → drop i s ≡ at s i ∷ drop (suc i) s
unfolding at
drop-at [] i h = elim h [ ]
drop-at (c ∷ s) zero h = refl
drop-at (c ∷ s) (suc i) h = drop-at s i (omega arith)

pub drop-end : (s : Text) (i : ℕ) → length s ≤ i → drop i s ≡ []
drop-end [] zero h = refl
drop-end [] (suc i) h = refl
drop-end (c ∷ s) zero h = absurd (omega arith)
drop-end (c ∷ s) (suc i) h = drop-end s i (omega arith)

module _ (f : ℕ) (h p : Text) (hi pi star star_hi : ℕ) where
  abbrev pub IsLiteral : Type 0
  IsLiteral = (ltb pi (length p) && at p pi == at h hi) ≡ true

  abbrev pub NoLiteral : Type 0
  NoLiteral = (ltb pi (length p) && at p pi == at h hi) ≡ false

  pub scan-end :
      ltb hi (length h) ≡ false
      → scan (suc f) h p hi pi star star_hi ≡ some (skip_stars (length p - pi) p pi == length p)
  unfolding scan
  scan-end e = rw e

  pub scan-advance :
      ltb hi (length h) ≡ true
      → IsLiteral
      → scan (suc f) h p hi pi star star_hi ≡ scan f h p (hi + 1) (pi + 1) star star_hi
  unfolding scan
  scan-advance e l = rw (e, l)

  pub scan-remember :
      ltb hi (length h) ≡ true
      → NoLiteral
      → (ltb pi (length p) && at p pi == star_char) ≡ true
      → scan (suc f) h p hi pi star star_hi ≡ scan f h p hi (pi + 1) pi hi
  unfolding scan
  scan-remember e l s = rw (e, l, s)

  pub scan-backtrack :
      ltb hi (length h) ≡ true
      → NoLiteral
      → (ltb pi (length p) && at p pi == star_char) ≡ false
      → (star == usize_max) ≡ false
      → scan (suc f) h p hi pi star star_hi ≡ scan f h p (star_hi + 1) (star + 1) star (star_hi + 1)
  unfolding scan
  scan-backtrack e l s m = rw (e, l, s, m)

  pub scan-fail :
      ltb hi (length h) ≡ true
      → NoLiteral
      → (ltb pi (length p) && at p pi == star_char) ≡ false
      → (star == usize_max) ≡ true
      → scan (suc f) h p hi pi star star_hi ≡ some false
  unfolding scan
  scan-fail e l s m = rw (e, l, s, m)

-- The loop over the last stars accepts what the empty text matches.
skip_stars_from :
    (n : ℕ) (p : Text) (pi : ℕ)
    → n + pi ≡ length p
    → (skip_stars n p pi == length p) ≡ matches [] (drop pi p)
unfolding skip_stars matches
skip_stars_from zero p pi e = rw (drop-end p pi (omega arith)) (ground arith)
skip_stars_from (suc n) p pi e =
    rw (drop-at p pi (omega arith))
      (ground (arith, rw add-one at (skip_stars_from n p (pi + 1) (omega arith))))

pub skip_stars_lem :
    (p : Text) (pi : ℕ)
    → pi ≤ length p
    → (skip_stars (length p - pi) p pi == length p) ≡ matches [] (drop pi p)
skip_stars_lem p pi h = skip_stars_from (length p - pi) p pi (omega arith)

pub at-ne : (b : ℕ) (s : Text) (i : ℕ) → Lacks b s → i < length s → at s i ≢ b
unfolding at
at-ne b [] i l h = elim h [ ]
at-ne b (c ∷ s) zero (n, l) h = n
at-ne b (c ∷ s) (suc i) (n, l) h = at-ne b s i l (omega arith)
