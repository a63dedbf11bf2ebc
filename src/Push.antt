-- ===== src/Push.antt =====
-- crates/stmp2log/src/push.rs: a message that one instance forwards to another, sealed with the
-- password.
pub mod RoundTrip
use stmp2log.Prelude.{
  ℕ, suc, ◌+◌, ◌-◌, ◌%◌, ◌^◌, List, [], ◌∷◌, ◌++◌, Option, none, some, Bool, true, false, ◌&&◌,
  ◌||◌, length, take, drop, ltb, leb, ◌==◌, if◌then◌else◌,
}
use stmp2log.Prelude.Int.{ℤ, pos, negsuc, pos_part, neg_part, sub_ℕ, ◌-ℤ◌, ltb_ℤ}
use stmp2log.Prelude.Text.{Text, codes, is_empty, str_trim}

pub record Payload : Type 0 where
  pub hostname : Text
  pub ts : ℤ
  pub envelope_from : Text
  pub rcpt : List Text
  pub peer : Text
  pub raw_b64 : Text

abbrev pub max_skew : ℕ
max_skew = 300000

-- `s2l_notify::HttpError`; an I/O error is its text.
pub data HttpError : Type 0 where
  bad_url resolve : Text → HttpError
  connect tls : Text → Text → HttpError
  io protocol : Text → HttpError
  too_large : HttpError
  timeout : Text → HttpError
  too_many_redirects : HttpError

pub data PushError : Type 0 where
  too_short decrypt : PushError
  json : Text → PushError
  skew : ℤ → PushError
  http : HttpError → PushError
  rejected : ℕ → Text → PushError

pub data Result (A : Type 0) : Type 0 where
  ok : A → Result A
  err : PushError → Result A

unfoldable pub http_retryable : HttpError → Bool
http_retryable (bad_url u) = false
http_retryable e = true

unfoldable pub retryable : PushError → Bool
unfolding http_retryable
retryable (http e) = http_retryable e
retryable (rejected status text) = status == 429 || (leb 500 status && ltb status 600)
retryable e = false

-- What `Client::send` returns.
pub data Answer : Type 0 where
  answer : ℕ → List ℕ → Answer
  failed : HttpError → Answer

-- `trim_end_matches('/')`.
unfoldable pub trim_end_slashes : Text → Text
trim_end_slashes [] = []
trim_end_slashes (c ∷ s) =
    let rest = trim_end_slashes s in if c == b'/' && is_empty rest then [] else c ∷ rest

-- What the code calls: SHA-256, the sealing and the opening in place by key and nonce (ring), JSON
-- (serde), `i64::to_le_bytes`, and the request with its answer.
pub record Calls : Type 0 where
  pub sha256 : List ℕ → List ℕ
  pub seal_bytes : List ℕ → List ℕ → List ℕ → Option (List ℕ)
  pub open_bytes : List ℕ → List ℕ → List ℕ → Option (List ℕ)
  pub to_vec : Payload → Result (List ℕ)
  pub from_slice : List ℕ → Result Payload
  pub le_bytes : ℤ → List ℕ
  pub http_send : Text → List ℕ → Answer
  pub lossy : List ℕ → Text

-- The value of an `i64` operation, which wraps around.
unfoldable pub wrap_i64 : ℤ → ℤ
wrap_i64 z = sub_ℕ ((pos_part z + 2 ^ 63 + 2 ^ 65 - neg_part z) % 2 ^ 64) (2 ^ 63)

-- `i64::abs`, which leaves the least number as it is.
unfoldable pub abs_i64 : ℤ → ℤ
abs_i64 (pos n) = pos n
abs_i64 (negsuc n) = if suc n == 2 ^ 63 then negsuc n else pos (suc n)

-- The end of `open`: the check of the clock.
unfoldable pub check_skew : ℤ → Payload → Result Payload
unfolding wrap_i64 abs_i64 ◌-ℤ◌
check_skew now_ms p =
    let d = wrap_i64 (now_ms -ℤ p.ts) in
    if ltb_ℤ (pos max_skew) (abs_i64 d) then err (skew d) else ok p

module _ (calls : Calls) where
  unfoldable pub derive_key : List ℕ → List ℕ
  derive_key web_pass = calls.sha256 (codes "stmp2log-push-v1:" ++ web_pass)

  -- The random bytes, or the time with zeros if there are none.
  unfoldable pub nonce_for : Option (List ℕ) → Payload → List ℕ
  nonce_for none p = calls.le_bytes p.ts ++ 0 ∷ 0 ∷ 0 ∷ 0 ∷ []
  nonce_for (some bytes) p = bytes

  unfoldable pub sealed_with : List ℕ → Option (List ℕ) → Result (List ℕ)
  sealed_with nonce none = err decrypt
  sealed_with nonce (some buf) = ok (nonce ++ buf)

  unfoldable pub seal_written : List ℕ → List ℕ → Result (List ℕ) → Result (List ℕ)
  unfolding sealed_with derive_key
  seal_written nonce web_pass (err e) = err e
  seal_written nonce web_pass (ok buf) =
      sealed_with nonce (calls.seal_bytes (derive_key web_pass) nonce buf)

  unfoldable pub seal : Option (List ℕ) → List ℕ → Payload → Result (List ℕ)
  unfolding seal_written nonce_for
  seal random web_pass p = seal_written (nonce_for random p) web_pass (calls.to_vec p)

  unfoldable pub open_parsed : ℤ → Result Payload → Result Payload
  unfolding check_skew
  open_parsed now_ms (err e) = err e
  open_parsed now_ms (ok p) = check_skew now_ms p

  unfoldable pub open_plain : ℤ → Option (List ℕ) → Result Payload
  unfolding open_parsed
  open_plain now_ms none = err decrypt
  open_plain now_ms (some plain) = open_parsed now_ms (calls.from_slice plain)

  unfoldable pub open_sealed : List ℕ → List ℕ → ℤ → Result Payload
  unfolding open_plain derive_key
  open_sealed web_pass body now_ms =
      if leb (length body) (12 + 16)
      then err too_short
      else open_plain now_ms (calls.open_bytes (derive_key web_pass) (take 12 body) (drop 12 body))

  unfoldable pub answer_of : Answer → Result (Unit {0})
  unfolding str_trim
  answer_of (failed e) = err (http e)
  answer_of (answer status body) =
      if leb 200 status && ltb status 300
      then ok tt
      else err (rejected status (take 200 (str_trim (calls.lossy body))))

  unfoldable pub send_sealed : Text → Result (List ℕ) → Result (Unit {0})
  unfolding answer_of trim_end_slashes
  send_sealed url (err e) = err e
  send_sealed url (ok body) =
      answer_of (calls.http_send (trim_end_slashes url ++ codes "/api/push") body)

  unfoldable pub send : Option (List ℕ) → Text → List ℕ → Payload → Result (Unit {0})
  unfolding send_sealed seal
  send random url web_pass p = send_sealed url (seal random web_pass p)

  -- The payload with its new time, and the result.
  unfoldable pub resend :
      Option (List ℕ) → Text → List ℕ → Payload → ℤ → Payload × Result (Unit {0})
  unfolding send
  resend random url web_pass p now_ms =
      let fresh = record p { ts = now_ms } in (fresh, send random url web_pass fresh)
