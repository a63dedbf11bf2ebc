-- ===== src/Store/Query/Address.antt =====
-- crates/s2l-store/src/query.rs: the two parts of an address, and the size of a page.
use stmp2log.Prelude.{
  ℕ, ◌≤◌, ◌≡◌, refl, ap, [], ◌∷◌, ◌++◌, Option, none, some, true, false, any, ◌==◌, arith,
  Bool-cases, inl, inr, if◌then◌else◌, ==_iff,
}
use stmp2log.Prelude.Text.{Text}
use stmp2log.Store.Query
use stmp2log.Store.Query.{rsplit_once}

-- The parts put together again, with no `b` in the second.
unfoldable Splits : ℕ → Text → Option (Text × Text) → Type 0
Splits b s none = any (λ c. c == b) s ≡ false
Splits b s (some p) = (p.0 ++ b ∷ p.1 ≡ s) × (any (λ c. c == b) p.1 ≡ false)

miss :
    (b c : ℕ) (s : Text)
    → (c == b) ≡ false
    → any (λ x. x == b) s ≡ false
    → any (λ x. x == b) (c ∷ s) ≡ false
unfolding any
miss b c s e h = rw e h

Splits-step :
    (b c : ℕ) (s : Text) (o : Option (Text × Text))
    → Splits b s o
    → Splits b
        (c ∷ s)
        (elim o [ some (u, d) ↦ some (c ∷ u, d) | none ↦ if c == b then some ([], s) else none ])
unfolding Splits any
Splits-step b c s (some p) (e, n) = (ap (λ r. c ∷ r) e, n)
Splits-step b c s none h = elim (Bool-cases (c == b)) [
  | inl e ↦ rw e (rw ((==_iff c b).0 e) refl, h)
  | inr e ↦ rw e (miss b c s e h)
]

rsplit_once-Splits : (b : ℕ) (s : Text) → Splits b s (rsplit_once b s)
unfolding rsplit_once Splits any
rsplit_once-Splits b [] = refl
rsplit_once-Splits b (c ∷ s) = Splits-step b c s (rsplit_once b s) (rsplit_once-Splits b s)

parts :
    (b : ℕ) (s : Text) (o : Option (Text × Text))
    → Splits b s o
    → any (λ c. c == b) s ≡ true
    → ((elim o [ some (u, d) ↦ u | none ↦ s ]) ++ b ∷ (elim o [ some (u, d) ↦ d | none ↦ [] ]) ≡ s)
      × (any (λ c. c == b) (elim o [ some (u, d) ↦ d | none ↦ [] ]) ≡ false)
unfolding Splits
parts b s none n h = (cc, cc)
parts b s (some p) e h = e

-- An address with an `@` is its user, the last `@` and its domain, which has no `@`.
pub user_of-domain_of :
    (addr : Text)
    → any (λ c. c == b'@') addr ≡ true
    → (Query.user_of addr ++ b'@' ∷ Query.domain_of addr ≡ addr)
      × (any (λ c. c == b'@') (Query.domain_of addr) ≡ false)
unfolding Query.user_of Query.domain_of
user_of-domain_of addr h = parts b'@' addr (rsplit_once b'@' addr) (rsplit_once-Splits b'@' addr) h

-- A page of a query has 1 to 500 messages.
pub clamp_lem : (q : Query.Query) → (1 ≤ (Query.clamp q).limit) × ((Query.clamp q).limit ≤ 500)
unfolding Query.clamp
clamp_lem q = ground arith
