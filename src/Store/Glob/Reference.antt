-- ===== src/Store/Glob/Reference.antt =====
-- What a pattern with `*` means, and the two facts on which the greedy search rests.
use stmp2log.Prelude.{
  ℕ, zero, suc, ◌≡◌, ◌≢◌, refl, sym, Bool-cases, inl, inr, [], ◌∷◌, ◌++◌, Bool, true, false, ◌&&◌,
  ◌||◌, arith, length, drop, ◌<◌, append-nil, All, ◌==◌, if◌then◌else◌,
}
use stmp2log.Prelude.Text.{Text}

-- `*` stands for any characters, and each other character for itself.
unfoldable pub matches : Text → Text → Bool
matches [] [] = true
matches (c ∷ h) [] = false
matches [] (d ∷ p) = d == b'*' && matches [] p
matches (c ∷ h) (d ∷ p) =
    if d == b'*' then matches (c ∷ h) p || matches h (d ∷ p) else c == d && matches h p

abbrev pub Lacks : ℕ → Text → Type 0
Lacks b = All (λ c. c ≢ b)

-- A text that a star and a pattern match, they match with a character more in front.
absorb : (c : ℕ) (h p : Text) → matches h (b'*' ∷ p) ≡ true → matches (c ∷ h) (b'*' ∷ p) ≡ true
unfolding matches
absorb c h p e = ground arith

absorb_drop :
    (c : ℕ) (n : ℕ) (x p : Text)
    → matches (drop n x) (b'*' ∷ p) ≡ true
    → matches (drop n (c ∷ x)) (b'*' ∷ p) ≡ true
absorb_drop c zero x p e = absorb c x p e
absorb_drop c (suc zero) [] p e = e
absorb_drop c (suc (suc n)) [] p e = e
absorb_drop c (suc n) (d ∷ x) p e = absorb_drop d n x p e

literal_drop :
    (w x p : Text)
    → Lacks b'*' w
    → matches x (w ++ b'*' ∷ p) ≡ true
    → matches (drop (length w) x) (b'*' ∷ p) ≡ true
unfolding matches
literal_drop [] x p l e = e
literal_drop (c ∷ w) [] p (n, l) e = ground arith
literal_drop (c ∷ w) (d ∷ x) p (n, l) e = ground (arith, literal_drop w x p l)

later_drop :
    (w x p : Text)
    → Lacks b'*' w
    → matches x (b'*' ∷ (w ++ b'*' ∷ p)) ≡ true
    → matches (drop (length w) x) (b'*' ∷ p) ≡ true
unfolding matches
later_drop w [] p l e = literal_drop w [] p l e
later_drop w (c ∷ x) p l e = elim (Bool-cases (matches (c ∷ x) (w ++ b'*' ∷ p))) [
  | inl now ↦ literal_drop w (c ∷ x) p l now
  | inr not_now ↦ absorb_drop c (length w) x p (later_drop w x p l (ground arith))
]

-- Characters that are their own patterns can be taken off both sides.
pub matches-literal : (w h p : Text) → Lacks b'*' w → matches (w ++ h) (w ++ p) ≡ matches h p
unfolding matches
matches-literal [] h p l = refl
matches-literal (c ∷ w) h p (n, l) = ground (arith, matches-literal w h p l)

-- A star may stand for nothing.
star_zero : (x p : Text) → matches x p ≡ true → matches x (b'*' ∷ p) ≡ true
unfolding matches
star_zero [] p e = e
star_zero (c ∷ x) p e = ground arith

drop-append : (w h : Text) → drop (length w) (w ++ h) ≡ h
drop-append [] h = refl
drop-append (c ∷ w) h = drop-append w h

Bool_ext : (a b : Bool) → (a ≡ true → b ≡ true) → (b ≡ true → a ≡ true) → a ≡ b
Bool_ext true b f g = sym (f refl)
Bool_ext false true f g = g refl
Bool_ext false false f g = refl

-- A second star makes the first one forgettable: where its literal part first matched is as good
-- as any later place.
pub matches-restart :
    (w h p : Text) → Lacks b'*' w → matches (w ++ h) (b'*' ∷ (w ++ b'*' ∷ p)) ≡ matches h (b'*' ∷ p)
matches-restart w h p l =
    Bool_ext _ _ (λ e. rw drop-append at (later_drop w (w ++ h) p l e))
      (λ e. star_zero (w ++ h) (w ++ b'*' ∷ p) (rw (matches-literal w h (b'*' ∷ p) l) e))

-- A text shorter than a literal does not match it, nor a star and it.
too_short : (w x p : Text) → Lacks b'*' w → length x < length w → matches x (w ++ p) ≡ false
unfolding matches
too_short [] x p l h = absurd (omega arith)
too_short (c ∷ w) [] p (n, l) h = ground arith
too_short (c ∷ w) (d ∷ x) p (n, l) h = ground (arith, too_short w x p l)

too_short_star :
    (w x p : Text) → Lacks b'*' w → length x < length w → matches x (b'*' ∷ (w ++ p)) ≡ false
unfolding matches
too_short_star w [] p l h = too_short w [] p l h
too_short_star w (c ∷ x) p l h = ground (arith, too_short w (c ∷ x) p l, too_short_star w x p l)

-- At the end of the text a star in front of what has matched adds nothing.
pub matches-used_up : (w p : Text) → Lacks b'*' w → matches w (b'*' ∷ (w ++ p)) ≡ matches [] p
unfolding matches
matches-used_up [] p l = refl
matches-used_up (c ∷ w) p (n, l) = ground (
  arith,
  rw append-nil at (matches-literal w [] p l),
  too_short_star (c ∷ w) w p (n, l) (omega arith),
)

-- Where the literal part fails, a star can only stand for one character more.
pub matches-skip :
    (c : ℕ) (x p : Text)
    → matches (c ∷ x) p ≡ false
    → matches (c ∷ x) (b'*' ∷ p) ≡ matches x (b'*' ∷ p)
unfolding matches
matches-skip c x p e = rw e

pub matches-nil : (c : ℕ) (x : Text) → matches (c ∷ x) [] ≡ false
unfolding matches
matches-nil c x = refl

pub matches-ne :
    (c d : ℕ) (x p : Text)
    → (d == c) ≡ false
    → (d == b'*') ≡ false
    → matches (c ∷ x) (d ∷ p) ≡ false
unfolding matches
matches-ne c d x p e f = ground arith
