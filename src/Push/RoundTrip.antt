-- ===== src/Push/RoundTrip.antt =====
-- crates/stmp2log/src/push.rs: what one instance seals, the other opens.
use stmp2log.Prelude.{
  ℕ, zero, suc, ◌-◌, ◌%◌, ap, ◌≤◌, ◌^◌, ◌+◌, ◌<◌, ◌≡◌, refl, List, [], ◌∷◌, ◌++◌, Option, some,
  false, length, take, drop, leb, ◌&&◌, if◌then◌else◌, Bool-cases, inl, inr, arith, length-append,
}
use stmp2log.Prelude.Int.{ℤ, pos, negsuc, ◌-ℤ◌}
use stmp2log.Push
use stmp2log.Push.{Payload, Calls, Result}

take-append : (n c : List ℕ) (k : ℕ) → length n ≡ k → take k (n ++ c) ≡ n
take-append [] c zero h = refl
take-append [] c (suc k) h = ground arith
take-append (x ∷ n) c zero h = ground arith
take-append (x ∷ n) c (suc k) h = ap (λ r. x ∷ r) (take-append n c k (omega arith))

drop-append : (n c : List ℕ) (k : ℕ) → length n ≡ k → drop k (n ++ c) ≡ c
drop-append [] c zero h = refl
drop-append [] c (suc k) h = ground arith
drop-append (x ∷ n) c zero h = ground arith
drop-append (x ∷ n) c (suc k) h = drop-append n c k (omega arith)

-- What `seal` makes of a payload, `open` with the same password gives back, up to its check of the clock.
-- Assumed are, at this payload and nonce: the nonce has 12 bytes; JSON writes the payload as some bytes,
-- and reads them as the payload; and the cipher seals them with 16 bytes more, and opens what it sealed
-- with the same key and nonce.
pub open_sealed-seal :
    (calls : Calls) (random : Option (List ℕ)) (web_pass : List ℕ) (p : Payload) (now_ms : ℤ)
    (plain c : List ℕ)
    → length (Push.nonce_for calls random p) ≡ 12
    → calls.to_vec p ≡ Push.ok plain
    → calls.from_slice plain ≡ Push.ok p
    → 0 < length plain
    → calls.seal_bytes (Push.derive_key calls web_pass) (Push.nonce_for calls random p) plain
      ≡ some c
    → calls.open_bytes (Push.derive_key calls web_pass) (Push.nonce_for calls random p) c
      ≡ some plain
    → length c ≡ length plain + 16
    → (body : List ℕ) × (Push.seal calls random web_pass p ≡ Push.ok body)
      × (Push.open_sealed calls web_pass body now_ms ≡ Push.check_skew now_ms p)
unfolding Push.seal Push.open_sealed
open_sealed-seal calls random web_pass p now_ms plain c n w r some_bytes s o tag =
    let nonce = Push.nonce_for calls random p in
    let long : leb (length (nonce ++ c)) (12 + 16) ≡ false =
      ground (arith, length-append {0} nonce c) in
    (
      nonce ++ c,
      rw w (rw s refl),
      rw long (rw (take-append nonce c 12 n) (rw (drop-append nonce c 12 n) (rw o (rw r refl)))),
    )

wrap_ahead : (n : ℕ) → n < 2 ^ 63 → Push.wrap_i64 (pos n) ≡ pos n
unfolding Push.wrap_i64
wrap_ahead n h =
    let e : (n + 2 ^ 63 + 2 ^ 65 - 0) % 2 ^ 64 ≡ n + 2 ^ 63 = omega arith in rw e (ground arith)

wrap_behind : (n : ℕ) → suc n < 2 ^ 63 → Push.wrap_i64 (negsuc n) ≡ negsuc n
unfolding Push.wrap_i64
wrap_behind n h =
    let e : (0 + 2 ^ 63 + 2 ^ 65 - suc n) % 2 ^ 64 ≡ 2 ^ 63 - suc n = omega arith in
    rw e (ground arith)

ahead : (now ts : ℕ) → ts ≤ now → (pos now -ℤ pos ts) ≡ pos (now - ts)
unfolding ◌-ℤ◌
ahead now ts h = ground arith

behind : (now ts : ℕ) → now < ts → (pos now -ℤ pos ts) ≡ negsuc (ts - now - 1)
unfolding ◌-ℤ◌
behind now ts h = ground arith

-- With times that are not negative, `check_skew` lets a payload through exactly if its time is within five
-- minutes of now, on either side, and reports the difference otherwise.
pub check_skew_lem :
    (now ts : ℕ) (p : Payload)
    → p.ts ≡ pos ts
    → now < 2 ^ 63
    → ts < 2 ^ 63
    → Push.check_skew (pos now) p ≡ (
        if leb now (ts + Push.max_skew) && leb ts (now + Push.max_skew)
        then Push.ok p
        else Push.err (Push.skew (pos now -ℤ pos ts)))
unfolding Push.check_skew
check_skew_lem now ts p e a b = elim (Bool-cases (leb ts now)) [
  | inl l ↦
      rw e
        (rw (ahead now ts (ground arith)) (rw (wrap_ahead (now - ts) (omega arith)) (ground arith)))
  | inr g ↦
      let h : now < ts = ground arith in
      rw e (rw (behind now ts h) (rw (wrap_behind (ts - now - 1) (omega arith)) (ground arith)))
]
