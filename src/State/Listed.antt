-- ===== src/State/Listed.antt =====
-- crates/stmp2log/src/state.rs: which messages the access list lets in.
use stmp2log.Prelude.{◌≡◌, refl, ◌⊎◌, not, true, false, ◌||◌, length, arith, Bool-cases, inl, inr}
use stmp2log.Prelude.Text.{Text}
use stmp2log.Store.Matcher.{Target, is_unconditional, matcher_matches}
use stmp2log.State
use stmp2log.State.{AccessMode}
use stmp2log.State.Groups.{conditions-none, conditions-some}

-- A message is let in where the list is off or has no conditions, where it names what is let in and the
-- message meets its conditions, and where it names what is kept out and the message does not.
pub data IsLetIn (lower : Text → Text) (a : State.Access) (t : Target) : Type 0 where
  is_off : a.mode ≡ AccessMode.off → IsLetIn lower a t
  is_empty : length a.matcher.conditions ≡ 0 → IsLetIn lower a t
  is_listed :
      a.mode ≡ AccessMode.whitelist → matcher_matches lower a.matcher t ≡ true → IsLetIn lower a t
  is_unlisted :
      a.mode ≡ AccessMode.blacklist → matcher_matches lower a.matcher t ≡ false → IsLetIn lower a t

mode-cases :
    (m : AccessMode)
    → (m ≡ AccessMode.off) ⊎ ((m ≡ AccessMode.whitelist) ⊎ (m ≡ AccessMode.blacklist))
mode-cases AccessMode.off = inl refl
mode-cases AccessMode.whitelist = inr (inl refl)
mode-cases AccessMode.blacklist = inr (inr refl)

pub accepts-IsLetIn :
    (lower : Text → Text) (a : State.Access) (t : Target)
    → State.accepts lower a t ≡ true
    → IsLetIn lower a t
unfolding State.accepts
accepts-IsLetIn lower a t h = elim (Bool-cases (is_unconditional a.matcher)) [
  | inl e ↦ IsLetIn.is_empty (conditions-none a.matcher e)
  | inr e ↦ elim (mode-cases a.mode) [
    | inl o ↦ IsLetIn.is_off o
    | inr (inl o) ↦ IsLetIn.is_listed o (rw e at (rw o at h))
    | inr (inr o) ↦
        (let q : not (matcher_matches lower a.matcher t) ≡ true = rw e at (rw o at h) in
          IsLetIn.is_unlisted o (ground (arith, q)))
  ]
]

pub not_accepts :
    (lower : Text → Text) (a : State.Access) (t : Target)
    → State.accepts lower a t ≡ false
    → ¬ IsLetIn lower a t
unfolding State.accepts
not_accepts lower a t h (IsLetIn.is_off o) = let q : true ≡ false = rw o at h in cc
not_accepts lower a t h (IsLetIn.is_empty c) = elim (Bool-cases (is_unconditional a.matcher)) [
  | inr e ↦ omega (arith, conditions-some a.matcher e, c)
  | inl e ↦ elim (mode-cases a.mode) [
    | inl o ↦ (let q : true ≡ false = rw o at h in cc)
    | inr (inl o) ↦ (let q : true ≡ false = rw e at (rw o at h) in cc)
    | inr (inr o) ↦ (let q : true ≡ false = rw e at (rw o at h) in cc)
  ]
]
not_accepts lower a t h (IsLetIn.is_listed o m) =
    let q : (is_unconditional a.matcher || matcher_matches lower a.matcher t) ≡ false = rw o at h in
    ground (arith, q, m)
not_accepts lower a t h (IsLetIn.is_unlisted o m) =
    let q : (is_unconditional a.matcher || not (matcher_matches lower a.matcher t)) ≡ false =
      rw o at h in
    ground (arith, q, m)
