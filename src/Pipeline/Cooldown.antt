-- ===== src/Pipeline/Cooldown.antt =====
-- crates/stmp2log/src/pipeline.rs: the cooldown of a notification rule.
use stmp2log.Prelude.{
  ℕ, suc, ◌*◌, ◌-◌, ◌≡◌, ◌≢◌, refl, List, [], ◌∷◌, true, false, not, ltb, keep, ◌==◌, ==_refl,
  arith, Bool-cases, inl, inr,
}
use stmp2log.Pipeline
use stmp2log.Pipeline.{World, Pipe}

differs : (a b : ℕ) → a ≢ b → (a == b) ≡ false
differs a b h = ground arith

last_of-keep :
    (id j : ℕ) (m : List (ℕ × ℕ))
    → (id == j) ≡ false
    → Pipeline.last_of j (keep (λ e. not (e.0 == id)) m) ≡ Pipeline.last_of j m
unfolding Pipeline.last_of keep
last_of-keep id j [] h = refl
last_of-keep id j ((k, t) ∷ m) h = ground (arith, last_of-keep id j m h)

-- Once a rule with a cooldown other than 0 has fired, it fires again exactly when the cooldown is over,
-- from any state with the cooldowns as the firing left them.
pub take_cooldown-again :
    (w : World) (p q : Pipe) (id secs : ℕ)
    → secs ≢ 0
    → (Pipeline.take_cooldown w p id secs).0 ≡ true
    → q.cooldowns ≡ (Pipeline.take_cooldown w p id secs).1.cooldowns
    → (Pipeline.take_cooldown w q id secs).0
      ≡ not (ltb (w.instant q.turn - w.instant (suc p.turn)) (secs * 1000000000))
unfolding Pipeline.take_cooldown Pipeline.last_of Pipeline.within
take_cooldown-again w p q id secs z t c =
    let some_secs : (secs == 0) ≡ false = differs secs 0 z in
    elim (Bool-cases
      (Pipeline.within (Pipeline.last_of id p.cooldowns) (w.instant p.turn) (secs * 1000000000))) [
        | inl f ↦ let no : false ≡ true = rw f at (rw some_secs at t) in cc
        | inr f ↦
            let written : q.cooldowns
                ≡ (id, w.instant (suc p.turn)) ∷ keep (λ e. not (e.0 == id)) p.cooldowns =
              rw f at (rw some_secs at c) in
            rw some_secs (rw written (rw (==_refl id) (ground arith)))
      ]

-- A rule's firing leaves the cooldowns of the other rules as they were.
pub take_cooldown-other :
    (w : World) (p : Pipe) (id secs other : ℕ)
    → id ≢ other
    → Pipeline.last_of other (Pipeline.take_cooldown w p id secs).1.cooldowns
      ≡ Pipeline.last_of other p.cooldowns
unfolding Pipeline.take_cooldown Pipeline.last_of
take_cooldown-other w p id secs other h = elim (Bool-cases (secs == 0)) [
  | inl z ↦ rw z refl
  | inr z ↦
      rw z
        (elim (Bool-cases (
          Pipeline.within (Pipeline.last_of id p.cooldowns) (w.instant p.turn)
            (secs * 1000000000))) [
              | inl f ↦ rw f refl
              | inr f ↦
                  rw f (
                    rw (differs id other h)
                      (last_of-keep id other p.cooldowns (differs id other h)))
            ])
]
