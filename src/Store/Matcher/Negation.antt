-- ===== src/Store/Matcher/Negation.antt =====
-- The negative operators of crates/s2l-store/src/match_.rs against the positive ones, and how
-- conditions add up.
use stmp2log.Prelude.{
  ◌≡◌, refl, List, [], ◌∷◌, ◌++◌, Bool, true, false, not, ◌&&◌, ◌||◌, any, all, append-nil, sym,
  arith,
}
use stmp2log.Prelude.Text.{Text}
use stmp2log.Store.Matcher.{
  Op, contains_op, not_contains, equals, not_equals, empty_op, not_empty, Condition, Target, all_of,
  any_of, test, condition_matches, matcher_matches,
}

-- The pairs of operators that are each other's negation in the user interface.
pub data Negates : Op → Op → Type 0 where
  contains_pair : Negates not_contains contains_op
  equals_pair : Negates not_equals equals
  empty_pair : Negates not_empty empty_op

abbrev pub with_op : Condition → Op → Condition
with_op c o = record c { op = o }

all-any :
    (p q : Text → Bool) (xs : List Text)
    → ((x : Text) → p x ≡ not (q x))
    → all p xs ≡ not (any q xs)
unfolding all any
all-any p q [] h = refl
all-any p q (x ∷ xs) h = ground (arith, h x, all-any p q xs h)

&&-true : (a : Bool) → (a && true) ≡ a
&&-true true = refl
&&-true false = refl

module _ (lower : Text → Text) where
  -- A condition with a negative operator holds of a mail exactly when the condition with the
  -- positive operator does not; of the recipients too, where all of them must miss.
  pub negation :
      (c : Condition) (t : Target) {neg op : Op}
      → Negates neg op
      → condition_matches lower (with_op c neg) t ≡ not (condition_matches lower (with_op c op) t)
  unfolding condition_matches
  negation c t contains_pair = ground (
    arith,
    all-any (test lower (with_op c not_contains)) (test lower (with_op c contains_op)) t.rcpt
        (λ x. refl),
  )
  negation c t equals_pair = ground (
    arith,
    all-any (test lower (with_op c not_equals)) (test lower (with_op c equals)) t.rcpt (λ x. refl),
  )
  negation c t empty_pair = ground arith

  all-append :
      (p : Condition → Bool) (cs ds : List Condition) → all p (cs ++ ds) ≡ all p cs && all p ds
  unfolding all
  all-append p [] ds = refl
  all-append p (c ∷ cs) ds = ground (arith, all-append p cs ds)

  any-append :
      (p : Condition → Bool) (cs ds : List Condition) → any p (cs ++ ds) ≡ any p cs || any p ds
  unfolding any
  any-append p [] ds = refl
  any-append p (c ∷ cs) ds = ground (arith, any-append p cs ds)

  -- Under `all_of` the conditions of two lists hold together when those of each list do, an empty
  -- list included.
  pub all_of-append :
      (cs ds : List Condition) (t : Target)
      → matcher_matches lower (record { logic = all_of; conditions = cs ++ ds }) t
        ≡ matcher_matches lower (record { logic = all_of; conditions = cs }) t
          && matcher_matches lower (record { logic = all_of; conditions = ds }) t
  unfolding matcher_matches all
  all_of-append [] ds t = refl
  all_of-append (c ∷ cs) [] t = rw append-nil (sym (&&-true _))
  all_of-append (c ∷ cs) (d ∷ ds) t =
      all-append (λ x. condition_matches lower x t) (c ∷ cs) (d ∷ ds)

  -- Under `any_of` the conditions of two lists that are not empty hold when those of one of them do.
  pub any_of-append :
      (c d : Condition) (cs ds : List Condition) (t : Target)
      → matcher_matches lower (record { logic = any_of; conditions = (c ∷ cs) ++ d ∷ ds }) t
        ≡ matcher_matches lower (record { logic = any_of; conditions = c ∷ cs }) t
          || matcher_matches lower (record { logic = any_of; conditions = d ∷ ds }) t
  unfolding matcher_matches any
  any_of-append c d cs ds t = any-append (λ x. condition_matches lower x t) (c ∷ cs) (d ∷ ds)
