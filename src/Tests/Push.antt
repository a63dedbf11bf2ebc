-- ===== src/Tests/Push.antt =====
-- A payload of crates/stmp2log that is sealed and opened, and a delivery that fails twice.
use stmp2log.Prelude.{
  ℕ, ◌+◌, ◌≡◌, refl, List, [], ◌∷◌, ◌++◌, some, ◌&&◌, take, leb, if◌then◌else◌, arith,
}
use stmp2log.Prelude.Int.{pos, negsuc, ◌-ℤ◌}
use stmp2log.Prelude.Text.{codes}
use stmp2log.Notify.Deliver
use stmp2log.Notify.Deliver.{Attempt, IsOutcome, deliver-IsOutcome}
use stmp2log.Push
use stmp2log.Push.{Payload, Calls}
use stmp2log.Push.RoundTrip.{open_sealed-seal, check_skew_lem}

abbrev payload : Payload
payload = record {
  hostname = codes "idc-a";
  ts = pos 1000;
  envelope_from = codes "ups@idc";
  rcpt = [];
  peer = codes "10.20.0.7";
  raw_b64 = codes "U3Vi";
}

abbrev tag : List ℕ
tag = 0 ∷ 1 ∷ 2 ∷ 3 ∷ 4 ∷ 5 ∷ 6 ∷ 7 ∷ 8 ∷ 9 ∷ 10 ∷ 11 ∷ 12 ∷ 13 ∷ 14 ∷ 15 ∷ []

abbrev nonce : List ℕ
nonce = take 12 tag

-- Instead of a cipher, the text with a tag behind it.
abbrev calls : Calls
calls = record {
  sha256 = λ b. b;
  seal_bytes = λ k n b. some (b ++ tag);
  open_bytes = λ k n b. some (take 3 b);
  to_vec = λ p. Push.ok (1 ∷ 2 ∷ 3 ∷ []);
  from_slice = λ b. Push.ok payload;
  le_bytes = λ t. [];
  http_send = λ u b. Push.answer 200 [];
  lossy = λ b. b;
}

open_sealed-seal_example :
    (body : List ℕ) × (Push.seal calls (some nonce) (codes "pw") payload ≡ Push.ok body)
    × (Push.open_sealed calls (codes "pw") body (pos 2000) ≡ Push.check_skew (pos 2000) payload)
unfolding Push.nonce_for
open_sealed-seal_example =
    open_sealed-seal calls (some nonce) (codes "pw") payload (pos 2000) (1 ∷ 2 ∷ 3 ∷ [])
      ((1 ∷ 2 ∷ 3 ∷ []) ++ tag) refl refl refl (omega arith) refl refl refl

check_skew_lem_example : Push.check_skew (pos 2000) payload ≡ (
    if leb 2000 (1000 + Push.max_skew) && leb 1000 (2000 + Push.max_skew)
    then Push.ok payload
    else Push.err (Push.skew (pos 2000 -ℤ pos 1000)))
check_skew_lem_example = check_skew_lem 2000 1000 payload refl (omega arith) (omega arith)

-- Two answers with the status 503, then one with 200.
abbrev attempt : ℕ → Attempt
attempt n = if leb n 2 then Deliver.refused 503 (codes "busy") else Deliver.answered 200

deliver-IsOutcome_example : IsOutcome attempt (λ n. n) 1 3 0 (Deliver.deliver attempt (λ n. n) 3)
deliver-IsOutcome_example = deliver-IsOutcome attempt (λ n. n) 3

-- The time of this payload is 2 ^ 63 milliseconds before now, and `abs` leaves the difference as it is.
far :
    Push.check_skew (pos 0) (record payload { ts = negsuc 9223372036854775807 })
    ≡ Push.ok (record payload { ts = negsuc 9223372036854775807 })
unfolding Push.check_skew
far = refl
