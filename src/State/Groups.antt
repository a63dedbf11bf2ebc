-- ===== src/State/Groups.antt =====
-- crates/stmp2log/src/state.rs: which group a message falls into, and the order of the groups.
use mathlib.Core.List.{Perm, perm_middle}
use mathlib.Core.List.Perm
use stmp2log.Prelude.{
  ℕ, ◌≡◌, refl, ap, List, [], ◌∷◌, ◌++◌, append_assoc, Option, none, some, Bool, true, false, not,
  ◌&&◌, ◌==◌, ◌<◌, length, All, arith, Bool-cases, inl, inr,
}
use stmp2log.Prelude.Text.{Text}
use stmp2log.Store.Matcher.{Matcher, Target, is_unconditional, matcher_matches}
use stmp2log.State
use stmp2log.State.{Group, AccessMode}

-- The group takes the messages that meet its conditions, of which it has some.
pub record Meets (lower : Text → Text) (t : Target) (g : Group) : Type 0 where
  pub enabled : g.enabled ≡ true
  pub conditions : 0 < length g.matcher.conditions
  pub meets : matcher_matches lower g.matcher t ≡ true

-- The group has no conditions and takes what is left.
pub record TakesRest (g : Group) : Type 0 where
  pub enabled : g.enabled ≡ true
  pub conditions : length g.matcher.conditions ≡ 0

-- The group that a message falls into, by what the groups are: the first enabled one with conditions that it
-- meets; if there is none, the first enabled one without conditions; else none.
pub data FallsInto (lower : Text → Text) (t : Target) (gs : List Group) : Option ℕ → Type 0 where
  specific :
      (front back : List Group) (g : Group)
      → gs ≡ front ++ g ∷ back
      → Meets lower t g
      → All (λ f. ¬ Meets lower t f) front
      → FallsInto lower t gs (some g.id)
  left_over :
      (front back : List Group) (g : Group)
      → All (λ f. ¬ Meets lower t f) gs
      → gs ≡ front ++ g ∷ back
      → TakesRest g
      → All (λ f. ¬ TakesRest f) front
      → FallsInto lower t gs (some g.id)
  nowhere :
      All (λ f. ¬ Meets lower t f) gs → All (λ f. ¬ TakesRest f) gs → FallsInto lower t gs none

-- What `find` returns.
data Found (p : Group → Bool) (gs : List Group) : Option Group → Type 0 where
  found :
      (front back : List Group) (g : Group)
      → gs ≡ front ++ g ∷ back
      → p g ≡ true
      → All (λ f. p f ≡ false) front
      → Found p gs (some g)
  missed : All (λ f. p f ≡ false) gs → Found p gs none

Found-cons :
    (p : Group → Bool) (g : Group) (gs : List Group) (o : Option Group)
    → p g ≡ false
    → Found p gs o
    → Found p (g ∷ gs) o
Found-cons p g gs _ e (Found.found front back x q h a) =
    Found.found (g ∷ front) back x (ap (λ r. g ∷ r) q) h (e, a)
Found-cons p g gs _ e (Found.missed a) = Found.missed (e, a)

find-Found : (p : Group → Bool) (gs : List Group) → Found p gs (State.find p gs)
unfolding State.find
find-Found p [] = Found.missed tt
find-Found p (g ∷ gs) = elim (Bool-cases (p g)) [
  | inl e ↦ rw e (Found.found [] gs g refl e tt)
  | inr e ↦ rw e (Found-cons p g gs (State.find p gs) e (find-Found p gs))
]

no_items :
    {A : Type 0} (xs : List A)
    → (elim xs as (λ x. Bool) [ [] ↦ true | _ ↦ false ]) ≡ true
    → length xs ≡ 0
no_items [] h = refl
no_items (x ∷ xs) h = cc

some_items :
    {A : Type 0} (xs : List A)
    → (elim xs as (λ x. Bool) [ [] ↦ true | _ ↦ false ]) ≡ false
    → 0 < length xs
some_items [] h = cc
some_items (x ∷ xs) h = omega arith

pub conditions-none : (m : Matcher) → is_unconditional m ≡ true → length m.conditions ≡ 0
unfolding is_unconditional
conditions-none m h = no_items m.conditions h

pub conditions-some : (m : Matcher) → is_unconditional m ≡ false → 0 < length m.conditions
unfolding is_unconditional
conditions-some m h = some_items m.conditions h

specific_parts : (a b c : Bool) → (a && (not b && c)) ≡ true → (a ≡ true) × (b ≡ false) × (c ≡ true)
specific_parts true false true h = (refl, refl, refl)
specific_parts true false false h = cc
specific_parts true true c h = cc
specific_parts false b c h = cc

specific_whole : (a b c : Bool) → a ≡ true → b ≡ false → c ≡ true → (a && (not b && c)) ≡ true
specific_whole a b c p q r = rw p (rw q (rw r refl))

module _ (lower : Text → Text) (t : Target) where
  is_specific-Meets : (g : Group) → State.is_specific lower t g ≡ true → Meets lower t g
  unfolding State.is_specific
  is_specific-Meets g h =
      let (on, present, meets) =
        specific_parts g.enabled (is_unconditional g.matcher) (matcher_matches lower g.matcher t)
          h in
      record { enabled = on; conditions = conditions-some g.matcher present; meets = meets }

  not_specific : (g : Group) → State.is_specific lower t g ≡ false → ¬ Meets lower t g
  unfolding State.is_specific
  not_specific g h m = elim (Bool-cases (is_unconditional g.matcher)) [
    | inl e ↦ omega (arith, conditions-none g.matcher e, m.conditions)
    | inr e ↦
        let q =
          specific_whole g.enabled (is_unconditional g.matcher) (matcher_matches lower g.matcher t)
            m.enabled e m.meets in
        cc (h, q)
  ]

is_fallback-TakesRest : (g : Group) → State.is_fallback g ≡ true → TakesRest g
unfolding State.is_fallback
is_fallback-TakesRest g h = record {
  enabled = ground (arith, h);
  conditions = conditions-none g.matcher (ground (arith, h));
}

not_fallback : (g : Group) → State.is_fallback g ≡ false → ¬ TakesRest g
unfolding State.is_fallback
not_fallback g h m = elim (Bool-cases (is_unconditional g.matcher)) [
  | inl e ↦ (let p : (true && true) ≡ false = rw e at (rw m.enabled at h) in cc)
  | inr e ↦ omega (arith, conditions-some g.matcher e, m.conditions)
]

All-map : (P Q : Group → Type 0) (gs : List Group) → ((g : Group) → P g → Q g) → All P gs → All Q gs
All-map P Q [] f a = tt
All-map P Q (g ∷ gs) f (h, a) = (f g h, All-map P Q gs f a)

falls :
    (lower : Text → Text) (t : Target) (gs : List Group) (o r : Option Group)
    → Found (State.is_specific lower t) gs o
    → Found State.is_fallback gs r
    → FallsInto lower t gs (elim o as (λ x. Option ℕ) [
      | some g ↦ some g.id
      | none ↦ elim r as (λ x. Option ℕ) [ some g ↦ some g.id | none ↦ none ]
    ])
falls lower t gs _ r (Found.found front back g q h a) b =
    FallsInto.specific front back g q (is_specific-Meets lower t g h) (
      All-map (λ f. State.is_specific lower t f ≡ false) (λ f. ¬ Meets lower t f) front
        (not_specific lower t) a)
falls lower t gs _ _ (Found.missed a) (Found.found front back g q h b) =
    FallsInto.left_over front back g
      (All-map (λ f. State.is_specific lower t f ≡ false) (λ f. ¬ Meets lower t f) gs
        (not_specific lower t) a)
      q (is_fallback-TakesRest g h)
      (All-map (λ f. State.is_fallback f ≡ false) (λ f. ¬ TakesRest f) front not_fallback b)
falls lower t gs _ _ (Found.missed a) (Found.missed b) =
    FallsInto.nowhere
      (All-map (λ f. State.is_specific lower t f ≡ false) (λ f. ¬ Meets lower t f) gs
        (not_specific lower t) a)
      (All-map (λ f. State.is_fallback f ≡ false) (λ f. ¬ TakesRest f) gs not_fallback b)

-- A message falls into the first of the enabled groups with conditions that it meets; if there is none, into
-- the first enabled group without conditions; and into none only if there is neither.
pub classify_lem :
    (lower : Text → Text) (st : State.State) (t : Target)
    → FallsInto lower t st.groups (State.classify lower st t)
unfolding State.classify
classify_lem lower st t =
    falls lower t st.groups (State.find (State.is_specific lower t) st.groups)
      (State.find State.is_fallback st.groups) (find-Found (State.is_specific lower t) st.groups)
      (find-Found State.is_fallback st.groups)

pull-Perm :
    (id : ℕ) (done gs : List Group)
    → Perm (State.push_found done ((State.pull id gs).0) ++ (State.pull id gs).1) (done ++ gs)
unfolding State.pull State.push_found
pull-Perm id done [] = Perm.refl _
pull-Perm id done (g ∷ gs) = elim (Bool-cases (g.id == id)) [
  | inl e ↦ rw e (rw (append_assoc done (g ∷ []) gs) (Perm.refl _))
  | inr e ↦ rw e (
      Perm.trans (perm_middle (State.push_found done ((State.pull id gs).0)) ((State.pull id gs).1))
        (Perm.trans (Perm.cons g (pull-Perm id done gs)) (Perm.symm (perm_middle done gs))))
]

reorder_loop-Perm :
    (ids : List ℕ) (done rest : List Group) → Perm (State.reorder_loop ids done rest) (done ++ rest)
unfolding State.reorder_loop
reorder_loop-Perm [] done rest = Perm.refl _
reorder_loop-Perm (id ∷ ids) done rest =
    Perm.trans
      (reorder_loop-Perm ids (State.push_found done ((State.pull id rest).0))
        ((State.pull id rest).1))
      (pull-Perm id done rest)

-- A reordering neither loses nor doubles a group, whatever ids it is given.
pub reorder_groups-Perm :
    (st : State.State) (ids : List ℕ) → Perm (State.reorder_groups st ids).groups st.groups
unfolding State.reorder_groups
reorder_groups-Perm st ids = reorder_loop-Perm ids [] st.groups

-- With conditions in the access list, a blacklist accepts a message exactly if a whitelist with the same
-- conditions does not.
pub accepts-opposite :
    (lower : Text → Text) (m : Matcher) (t : Target)
    → is_unconditional m ≡ false
    → State.accepts lower (record { mode = AccessMode.blacklist; matcher = m }) t
      ≡ not (State.accepts lower (record { mode = AccessMode.whitelist; matcher = m }) t)
unfolding State.accepts
accepts-opposite lower m t h = rw h refl
