-- ===== src/Retry/Evict.antt =====
-- `evict` of crates/stmp2log/src/retry.rs, the bound on the queue and what it costs; and the delay
-- between two passes.
use stmp2log.Prelude.{
  ℕ, suc, ◌-◌, ◌*◌, ◌≡◌, ◌≢◌, refl, List, [], ◌∷◌, ◌++◌, arith, length, take, drop, zero, ◌^◌,
  append_assoc, append-nil, ltb, Bool-cases, inl, inr, min, length-drop, length-take,
}
use native.Mathlib.Nat.{pow-suc}
use stmp2log.Retry.{Pending, evict_loop, evict, next_delay, first_delay}

evict_loop_lem :
    (max : ℕ) (evicted q : List Pending)
    → evict_loop max evicted q ≡ (evicted ++ take (length q - max) q, drop (length q - max) q)
unfolding evict_loop
evict_loop_lem max evicted [] = let e : 0 - max ≡ 0 = omega arith in rw (e, append-nil) refl
evict_loop_lem max evicted (p ∷ q) = elim (Bool-cases (ltb max (suc (length q)))) [
  | inl over ↦
      let e : suc (length q) - max ≡ suc (length q - max) = ground arith in
      rw (over, e, evict_loop_lem max (evicted ++ p ∷ []) q, append_assoc)
  | inr fits ↦ let e : suc (length q) - max ≡ 0 = ground arith in rw (fits, e, append-nil)
]

-- With a limit, `evict` cuts the queue in two: the oldest entries, as many as are over the limit,
-- and the others in their order.
pub evict_lem :
    (q : List Pending) (max : ℕ)
    → max ≢ 0
    → evict q max ≡ (take (length q - max) q, drop (length q - max) q)
unfolding evict
evict_lem q max h = ground (arith, evict_loop_lem max [] q)

-- With the limit 0 nothing is evicted.
pub evict-zero : (q : List Pending) → evict q 0 ≡ ([], q)
unfolding evict
evict-zero q = refl

take-append-drop : (n : ℕ) (q : List Pending) → take n q ++ drop n q ≡ q
take-append-drop zero q = refl
take-append-drop (suc n) [] = refl
take-append-drop (suc n) (p ∷ q) = rw (take-append-drop n q)

-- What is evicted and what stays are together the queue, in its order, whatever the limit.
pub evict-append : (q : List Pending) (max : ℕ) → (evict q max).0 ++ (evict q max).1 ≡ q
evict-append q zero = rw evict-zero
evict-append q (suc m) = rw (evict_lem q (suc m) (λ e. omega arith)) (take-append-drop _ q)

-- With a limit, no more entries stay than the limit allows, and no fewer than it allows or than
-- there were.
pub length-evict :
    (q : List Pending) (max : ℕ) → max ≢ 0 → length (evict q max).1 ≡ min max (length q)
length-evict q max h = rw (evict_lem q max h) (omega (arith, length-drop {0} (length q - max) q))

pub length-evicted :
    (q : List Pending) (max : ℕ) → max ≢ 0 → length (evict q max).0 ≡ length q - max
length-evicted q max h = rw (evict_lem q max h) (omega (arith, length-take {0} (length q - max) q))

-- `n` passes without a success after the first delay.
pub delays : ℕ → ℕ
delays zero = first_delay
delays (suc n) = next_delay (delays n)

-- The delay before the pass after `n` stalled ones is 30 seconds doubled `n` times, up to 300.
pub delays_lem : (n : ℕ) → delays n ≡ min (30 * 2 ^ n) 300
unfolding delays next_delay
delays_lem zero = refl
delays_lem (suc n) = rw (delays_lem n, pow-suc) (omega arith)
