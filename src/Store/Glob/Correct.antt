-- ===== src/Store/Glob/Correct.antt =====
-- `glob` of crates/s2l-store/src/match_.rs against the meaning of a pattern, and how long it runs.
use native.Mathlib.Numerals.{add-one}
use stmp2log.Prelude.{
  ℕ, zero, suc, ◌+◌, ◌-◌, ◌*◌, ◌<◌, ◌≤◌, ◌≡◌, ◌≢◌, refl, sym, ap, ◌∙◌, [], ◌∷◌, ◌++◌, some, Bool,
  false, ◌&&◌, length, drop, ltb, ◌==◌, arith, Bool-cases, inl, inr, append-nil, append_assoc,
}
use stmp2log.Prelude.Text.{Text, codes}
use stmp2log.Store.Glob.{at, skip_stars, scan, glob, star_char, usize_max, fuel_for}
use stmp2log.Store.Glob.Reference.{
  matches, Lacks, matches-literal, matches-restart, matches-used_up, matches-skip, matches-nil,
  matches-ne,
}
use stmp2log.Store.Glob.Greedy.{
  drop-at, drop-end, scan-end, scan-advance, scan-remember, scan-backtrack, scan-fail,
  skip_stars_lem, at-ne,
}

-- What is known once a star was seen: the part `w` of the text that the loop has matched literally
-- since the star's place.
record Seen (h p : Text) (hi pi star star_hi : ℕ) : Type 0 where
  w : Text
  literal : Lacks b'*' w
  text : drop star_hi h ≡ w ++ drop hi h
  pattern : drop (suc star) p ≡ w ++ drop pi p
  star_lt : star < pi
  hi_le : star_hi ≤ hi

-- The rounds that are left, at most.
abbrev measure : ℕ → ℕ → ℕ → ℕ → ℕ → ℕ
measure n m hi star star_hi = (n + 1 - star_hi) * (n + 1) + (n - hi) + (m - star)

mul_mono : (a b c : ℕ) → a ≤ b → a * c ≤ b * c
mul_mono a b c h = grind arith

measure_remember :
    (n m hi pi star star_hi : ℕ)
    → star_hi ≤ hi
    → star < pi
    → pi < m
    → measure n m hi pi hi < measure n m hi star star_hi
measure_remember n m hi pi star star_hi a b c =
    let e : n + 1 - hi ≤ n + 1 - star_hi = omega arith in
    let k : (n + 1 - hi) * (n + 1) ≤ (n + 1 - star_hi) * (n + 1) = grind arith in omega arith

measure_backtrack :
    (n m hi star star_hi : ℕ)
    → star_hi ≤ hi
    → hi < n
    → measure n m (star_hi + 1) star (star_hi + 1) < measure n m hi star star_hi
measure_backtrack n m hi star star_hi a b =
    let e : n + 1 - star_hi ≡ suc (n - star_hi) = omega arith in
    let d : n + 1 - (star_hi + 1) ≡ n - star_hi = omega arith in rw (e, d) (omega arith)

-- Right behind a star nothing was matched yet.
fresh : (h p : Text) (hi pi : ℕ) → Seen h p hi (pi + 1) pi hi
fresh h p hi pi = record {
  w = [];
  literal = tt;
  text = refl;
  pattern = rw add-one;
  star_lt = omega arith;
  hi_le = omega arith;
}

-- One more character that is its own pattern.
snoc-drop :
    (s w : Text) (j i : ℕ) (c : ℕ)
    → drop j s ≡ w ++ drop i s
    → i < length s
    → at s i ≡ c
    → drop j s ≡ (w ++ c ∷ []) ++ drop (i + 1) s
snoc-drop s w j i c e lt r = rw (append_assoc, add-one, ← r, ← drop-at s i lt) e

Lacks-snoc : (w : Text) (c : ℕ) → Lacks b'*' w → c ≢ b'*' → Lacks b'*' (w ++ c ∷ [])
Lacks-snoc [] c l n = (n, tt)
Lacks-snoc (d ∷ w) c (m, l) n = (m, Lacks-snoc w c l n)

advance :
    (h p : Text) (hi pi star star_hi : ℕ)
    → Lacks b'*' h
    → Seen h p hi pi star star_hi
    → hi < length h
    → pi < length p
    → at p pi ≡ at h hi
    → Seen h p (hi + 1) (pi + 1) star star_hi
advance h p hi pi star star_hi plain s a b e = record {
  w = s.w ++ at h hi ∷ [];
  literal = Lacks-snoc s.w (at h hi) s.literal (at-ne b'*' h hi plain a);
  text = snoc-drop h s.w star_hi hi (at h hi) s.text a refl;
  pattern = snoc-drop p s.w (suc star) pi (at h hi) s.pattern b e;
  star_lt = omega arith;
  hi_le = omega arith;
}

-- No rule for the next character: the rest of the pattern does not match here.
mismatch :
    (h p : Text) (hi pi : ℕ)
    → hi < length h
    → pi ≤ length p
    → (ltb pi (length p) && at p pi == at h hi) ≡ false
    → (ltb pi (length p) && at p pi == star_char) ≡ false
    → matches (drop hi h) (drop pi p) ≡ false
mismatch h p hi pi a b l s = elim (Bool-cases (ltb pi (length p))) [
  | inl inside ↦
      rw (drop-at h hi a, drop-at p pi (ground arith))
        (matches-ne (at h hi) (at p pi) _ _ (ground arith) (ground arith))
  | inr over ↦ rw (drop-at h hi a, drop-end p pi (ground arith)) (matches-nil (at h hi) _)
]

-- What the loop decides once a star was seen.
answer_seen : Text → Text → ℕ → ℕ → Bool
answer_seen h p star star_hi = matches (drop star_hi h) (b'*' ∷ drop (suc star) p)

module _ (h p : Text) (hi pi star star_hi : ℕ) (s : Seen h p hi pi star star_hi) where
  answer-end :
      hi ≡ length h
      → pi ≤ length p
      → answer_seen h p star star_hi ≡ (skip_stars (length p - pi) p pi == length p)
  unfolding answer_seen
  answer-end e b =
      rw (s.text, s.pattern, drop-end h hi (omega arith), append-nil, skip_stars_lem p pi b)
        (matches-used_up s.w (drop pi p) s.literal)

  answer-restart :
      pi < length p → at p pi ≡ b'*' → answer_seen h p star star_hi ≡ answer_seen h p pi hi
  unfolding answer_seen
  answer-restart b e =
      let q : drop pi p ≡ b'*' ∷ drop (suc pi) p = rw (drop-at p pi b, e) in
      rw (s.text, s.pattern, q) (matches-restart s.w (drop hi h) (drop (suc pi) p) s.literal)

  answer-back :
      hi < length h
      → matches (drop hi h) (drop pi p) ≡ false
      → answer_seen h p star star_hi ≡ answer_seen h p star (star_hi + 1)
  unfolding answer_seen
  answer-back a n =
      let x : drop star_hi h ≡ at h star_hi ∷ drop (suc star_hi) h =
        drop-at h star_hi (omega (arith, s.hi_le)) in
      let f : matches (drop star_hi h) (drop (suc star) p) ≡ false =
        rw (s.text, s.pattern, matches-literal s.w (drop hi h) (drop pi p) s.literal) n in
      rw (x, add-one)
        (matches-skip (at h star_hi) (drop (suc star_hi) h) (drop (suc star) p) (rw x at f))

answer-first :
    (h p : Text) (hi pi : ℕ)
    → pi < length p
    → at p pi ≡ b'*'
    → answer_seen h p pi hi ≡ matches (drop hi h) (drop pi p)
unfolding answer_seen
answer-first h p hi pi b e =
    let q : drop pi p ≡ b'*' ∷ drop (suc pi) p = rw (drop-at p pi b, e) in rw q

advance-matches :
    (h p : Text) (hi pi : ℕ)
    → Lacks b'*' h
    → hi < length h
    → pi < length p
    → at p pi ≡ at h hi
    → matches (drop (hi + 1) h) (drop (pi + 1) p) ≡ matches (drop hi h) (drop pi p)
advance-matches h p hi pi plain a b e =
    rw (drop-at h hi a, drop-at p pi b, e, add-one, add-one)
      (sym (matches-literal (at h hi ∷ []) _ _ (at-ne b'*' h hi plain a, tt)))

measure_first : (n m hi pi : ℕ) → measure n m hi pi hi ≤ (n + 2) * (n + 1) + (n - hi) + m
measure_first n m hi pi =
    let e : n + 1 - hi ≤ n + 2 = omega arith in
    omega (arith, mul_mono (n + 1 - hi) (n + 2) (n + 1) e)

module _ (h p : Text) (plain : Lacks b'*' h) (room : length p ≤ usize_max) where
  scan_seen :
      (f hi pi star star_hi : ℕ)
      → Seen h p hi pi star star_hi
      → hi ≤ length h
      → pi ≤ length p
      → measure (length h) (length p) hi star star_hi < f
      → scan f h p hi pi star star_hi ≡ some (answer_seen h p star star_hi)
  scan_seen zero hi pi star star_hi s a b m = absurd (omega arith)
  scan_seen (suc f) hi pi star star_hi s a b m = elim (Bool-cases (ltb hi (length h))) [
    | inr done ↦
        scan-end f h p hi pi star star_hi done
        ∙ ap some (sym (answer-end h p hi pi star star_hi s (ground arith) b))
    | inl more ↦ elim (Bool-cases (ltb pi (length p) && at p pi == at h hi)) [
      | inl lit ↦
          scan-advance f h p hi pi star star_hi more lit
          ∙ scan_seen f (hi + 1) (pi + 1) star star_hi
              (advance h p hi pi star star_hi plain s (ground arith) (ground arith) (ground arith))
              (ground arith) (ground arith) (ground arith)
      | inr no_lit ↦ elim (Bool-cases (ltb pi (length p) && at p pi == star_char)) [
        | inl is_star ↦
            scan-remember f h p hi pi star star_hi more no_lit is_star
            ∙ scan_seen f hi (pi + 1) pi hi (fresh h p hi pi) a (ground arith) (
                omega (
                  arith,
                  measure_remember (length h) (length p) hi pi star star_hi s.hi_le s.star_lt
                      (ground arith),
                ))
            ∙ ap some (sym (answer-restart h p hi pi star star_hi s (ground arith) (ground arith)))
        | inr no_star ↦
            scan-backtrack f h p hi pi star star_hi more no_lit no_star (ground arith)
            ∙ scan_seen f (star_hi + 1) (star + 1) star (star_hi + 1) (fresh h p (star_hi + 1) star)
                (ground arith) (omega arith)
                (omega (
                  arith,
                  measure_backtrack (length h) (length p) hi star star_hi s.hi_le (ground arith),
                ))
            ∙ ap some (
                sym (
                  answer-back h p hi pi star star_hi s (ground arith)
                    (mismatch h p hi pi (ground arith) b no_lit no_star)))
      ]
    ]
  ]

  -- Before the first star.
  scan_start :
      (f hi pi : ℕ)
      → hi ≤ length h
      → pi ≤ length p
      → (length h + 2) * (length h + 1) + (length h - hi) + length p + 1 < f
      → scan f h p hi pi usize_max 0 ≡ some (matches (drop hi h) (drop pi p))
  scan_start zero hi pi a b m = absurd (omega arith)
  scan_start (suc f) hi pi a b m = elim (Bool-cases (ltb hi (length h))) [
    | inr done ↦
        scan-end f h p hi pi usize_max 0 done
        ∙ ap some (rw (drop-end h hi (ground arith)) (skip_stars_lem p pi b))
    | inl more ↦ elim (Bool-cases (ltb pi (length p) && at p pi == at h hi)) [
      | inl lit ↦
          scan-advance f h p hi pi usize_max 0 more lit
          ∙ scan_start f (hi + 1) (pi + 1) (ground arith) (ground arith) (ground arith)
          ∙ ap some (advance-matches h p hi pi plain (ground arith) (ground arith) (ground arith))
      | inr no_lit ↦ elim (Bool-cases (ltb pi (length p) && at p pi == star_char)) [
        | inl is_star ↦
            scan-remember f h p hi pi usize_max 0 more no_lit is_star
            ∙ scan_seen f hi (pi + 1) pi hi (fresh h p hi pi) a (ground arith)
                (omega (arith, measure_first (length h) (length p) hi pi))
            ∙ ap some (answer-first h p hi pi (ground arith) (ground arith))
        | inr no_star ↦
            scan-fail f h p hi pi usize_max 0 more no_lit no_star refl
            ∙ ap some (sym (mismatch h p hi pi (ground arith) b no_lit no_star))
      ]
    ]
  ]

-- The loop ends for every text and pattern: with fuel above the measure it returns.
scan_returns :
    (h p : Text) (f hi pi star star_hi : ℕ)
    → star < pi
    → star_hi ≤ hi
    → hi ≤ length h
    → measure (length h) (length p) hi star star_hi < f
    → (r : Bool) × (scan f h p hi pi star star_hi ≡ some r)
scan_returns h p zero hi pi star star_hi a b c m = absurd (omega arith)
scan_returns h p (suc f) hi pi star star_hi a b c m = elim (Bool-cases (ltb hi (length h))) [
  | inr done ↦ (_, scan-end f h p hi pi star star_hi done)
  | inl more ↦ elim (Bool-cases (ltb pi (length p) && at p pi == at h hi)) [
    | inl lit ↦
        let (r, e) =
          scan_returns h p f (hi + 1) (pi + 1) star star_hi (omega arith) (omega arith)
            (ground arith) (ground arith) in
        (r, scan-advance f h p hi pi star star_hi more lit ∙ e)
    | inr no_lit ↦ elim (Bool-cases (ltb pi (length p) && at p pi == star_char)) [
      | inl is_star ↦
          let (r, e) = scan_returns h p f hi (pi + 1) pi hi (omega arith) (omega arith) c (
            omega (
              arith,
              measure_remember (length h) (length p) hi pi star star_hi b a (ground arith),
            )) in
          (r, scan-remember f h p hi pi star star_hi more no_lit is_star ∙ e)
      | inr no_star ↦ elim (Bool-cases (star == usize_max)) [
        | inl none_seen ↦ (false, scan-fail f h p hi pi star star_hi more no_lit no_star none_seen)
        | inr seen ↦
            let (r, e) =
              scan_returns h p f (star_hi + 1) (star + 1) star (star_hi + 1) (omega arith)
                (omega arith) (ground arith)
                (omega (
                  arith,
                  measure_backtrack (length h) (length p) hi star star_hi b (ground arith),
                )) in
            (r, scan-backtrack f h p hi pi star star_hi more no_lit no_star seen ∙ e)
      ]
    ]
  ]
]

scan_start_returns :
    (h p : Text) (f hi pi : ℕ)
    → hi ≤ length h
    → (length h + 2) * (length h + 1) + (length h - hi) + length p + 1 < f
    → (r : Bool) × (scan f h p hi pi usize_max 0 ≡ some r)
scan_start_returns h p zero hi pi a m = absurd (omega arith)
scan_start_returns h p (suc f) hi pi a m = elim (Bool-cases (ltb hi (length h))) [
  | inr done ↦ (_, scan-end f h p hi pi usize_max 0 done)
  | inl more ↦ elim (Bool-cases (ltb pi (length p) && at p pi == at h hi)) [
    | inl lit ↦
        let (r, e) = scan_start_returns h p f (hi + 1) (pi + 1) (ground arith) (ground arith) in
        (r, scan-advance f h p hi pi usize_max 0 more lit ∙ e)
    | inr no_lit ↦ elim (Bool-cases (ltb pi (length p) && at p pi == star_char)) [
      | inl is_star ↦
          let (r, e) =
            scan_returns h p f hi (pi + 1) pi hi (omega arith) (omega arith) a
              (omega (arith, measure_first (length h) (length p) hi pi)) in
          (r, scan-remember f h p hi pi usize_max 0 more no_lit is_star ∙ e)
      | inr no_star ↦ (false, scan-fail f h p hi pi usize_max 0 more no_lit no_star refl)
    ]
  ]
]

-- The fuel of `glob` is enough for every text and every pattern: it returns an answer.
pub glob_total : (hay pat : Text) → (r : Bool) × (glob hay pat ≡ some r)
unfolding glob
glob_total hay pat = scan_start_returns hay pat (fuel_for hay pat) 0 0 (omega arith) (omega arith)

-- `glob` ends within its fuel, and decides what the pattern means, for every text with no `*` in it
-- and every pattern that fits the address space.
pub glob-matches :
    (hay pat : Text)
    → Lacks b'*' hay
    → length pat ≤ usize_max
    → glob hay pat ≡ some (matches hay pat)
unfolding glob
glob-matches hay pat plain room =
    scan_start hay pat plain room (fuel_for hay pat) 0 0 (omega arith) (omega arith) (omega arith)

-- A text that begins with `*` and goes on is not matched by the pattern `*`: the pattern's star is
-- taken as that character, and not as any characters.
pub glob-star_first : (c : ℕ) (rest : Text) → glob (b'*' ∷ c ∷ rest) (codes "*") ≡ some false
unfolding glob at
glob-star_first c rest =
    let k = (length rest + 4) * (length rest + 3) + length rest + 3 in
    let e : fuel_for (b'*' ∷ c ∷ rest) (codes "*") ≡ suc (suc k) = omega arith in
    rw e (
      scan-advance (suc k) (b'*' ∷ c ∷ rest) (codes "*") 0 0 usize_max 0 (ground arith) refl
      ∙ scan-fail k (b'*' ∷ c ∷ rest) (codes "*") 1 1 usize_max 0 (ground arith) refl refl refl)
