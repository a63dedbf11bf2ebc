-- ===== src/Web/Auth.antt =====
-- crates/s2l-web/src/auth.rs: the challenge, the login and the sessions of the web interface. Times
-- are in nanoseconds. A call reads the clock several times; each reading is an argument of its own,
-- but for a `retain`, whose readings are one. `sha256` stands for `sha256_hex` of the sha2 and hex
-- crates, and `random` for what `random_hex` returned.
pub mod Bounds
pub mod Replay
pub mod Issued
pub mod Compare
use stmp2log.Prelude.{
  ℕ, zero, suc, ◌+◌, ◌*◌, ◌-◌, min, List, [], ◌∷◌, ◌++◌, Option, none, some, Bool, true, false, not,
  length, ltb, leb, ◌==◌, if◌then◌else◌,
}
use stmp2log.Prelude.Text.{Text, codes, is_empty}
use stmp2log.Prelude.Assoc.{lookup, remove, insert, retain, has_key}
use Prim.Native.Nat.{bit_or, bit_xor}

abbrev pub secs : ℕ → ℕ
secs n = n * 1000000000

abbrev pub nonce_ttl : ℕ
nonce_ttl = secs 60

abbrev pub max_nonces : ℕ
max_nonces = 256

abbrev pub max_sessions : ℕ
max_sessions = 64

abbrev pub fail_before_delay : ℕ
fail_before_delay = 3

-- `Instant::elapsed`, which is 0 for a time that is still to come.
unfoldable pub elapsed : ℕ → ℕ → ℕ
elapsed at now = now - at

pub record Inner : Type 0 where
  pub nonces : List (Text × ℕ)
  pub sessions : List (Text × ℕ)
  pub failures : List (Text × (ℕ × ℕ))

pub record Auth : Type 0 where
  pub password_hash : Option Text
  pub inner : Inner

pub data LoginError : Type 0 where
  bad_nonce : LoginError
  bad_proof : LoginError
  too_many_attempts : LoginError

pub data Login : Type 0 where
  ok : Text → ℕ → Login
  err : LoginError → Login

unfoldable pub required : Auth → Bool
required a = elim (a.password_hash) [ none ↦ false | some h ↦ true ]

-- `min_by_key` on the times: the first of the oldest entries.
unfoldable pub oldest_of : Text × ℕ → List (Text × ℕ) → Text × ℕ
oldest_of e [] = e
oldest_of (k, t) ((j, u) ∷ m) = let best = if ltb u t then (j, u) else (k, t) in oldest_of best m

-- Removes the oldest entry of a table that has reached its limit.
unfoldable pub make_room : ℕ → List (Text × ℕ) → List (Text × ℕ)
unfolding remove oldest_of
make_room limit [] = []
make_room limit (e ∷ m) =
    if leb limit (length (e ∷ m)) then remove ((oldest_of e m).0) (e ∷ m) else e ∷ m

unfoldable pub sweep : ℕ → Inner → Inner
unfolding retain elapsed
sweep now inner = record {
  nonces = retain (λ at. leb (elapsed at now) nonce_ttl) inner.nonces;
  sessions = inner.sessions;
  failures = retain (λ e. leb (elapsed (e.1) now) (secs 600)) inner.failures;
}

unfoldable pub too_often : ℕ → Option (ℕ × ℕ) → Bool
unfolding elapsed
too_often now none = false
too_often now (some (n, at)) =
    if ltb fail_before_delay n
    then ltb (elapsed at now) (secs (min (n - fail_before_delay) 30))
    else false

unfoldable pub failed_too_often : ℕ → Inner → Text → Bool
unfolding too_often lookup
failed_too_often now inner from = too_often now (lookup from inner.failures)

-- `u32::saturating_add` of one to the failures on record.
unfoldable pub failures_before : Option (ℕ × ℕ) → ℕ
failures_before none = 0
failures_before (some (n, at)) = n

unfoldable pub record_failure : ℕ → Inner → Text → Inner
unfolding failures_before lookup insert
record_failure now inner from = record {
  nonces = inner.nonces;
  sessions = inner.sessions;
  failures =
      insert from (min (failures_before (lookup from inner.failures) + 1) 4294967295, now)
        inner.failures;
}

unfoldable pub diff_of : ℕ → List ℕ → List ℕ → ℕ
diff_of diff [] b = diff
diff_of diff (x ∷ a) [] = diff
diff_of diff (x ∷ a) (y ∷ b) = diff_of (bit_or diff (bit_xor x y)) a b

unfoldable pub constant_time_eq : List ℕ → List ℕ → Bool
unfolding diff_of
constant_time_eq a b = if not (length a == length b) then false else diff_of 0 a b == 0

-- The readings of the clock in one call, in the order in which the code takes them.
pub record Clock : Type 0 where
  pub swept : ℕ
  pub throttle : ℕ
  pub age : ℕ
  pub noted : ℕ

module _ (sha256 : Text → Text) where
  unfoldable pub password_hash_of : Text → Option Text
  unfolding is_empty
  password_hash_of password = if is_empty password then none else some (sha256 password)

  unfoldable pub new : Text → Auth
  unfolding password_hash_of
  new password = record {
    password_hash = password_hash_of password;
    inner = record { nonces = []; sessions = []; failures = [] };
  }

  unfoldable pub expected_proof : Auth → Text → Text
  expected_proof a nonce =
      sha256 (nonce ++ codes ":" ++ (elim (a.password_hash) [ none ↦ [] | some h ↦ h ]))

  -- The rest of `login` for the nonce's entry, as `nonces.remove` returned it.
  unfoldable pub judge : Clock → Text → Auth → Inner → Text → Text → Text → Option ℕ → Login × Inner
  unfolding elapsed record_failure expected_proof constant_time_eq make_room insert remove
  judge now token a inner nonce proof from none =
      (err bad_nonce, record_failure now.noted inner from)
  judge now token a inner nonce proof from (some at) =
      if ltb nonce_ttl (elapsed at now.age)
      then (err bad_nonce, record_failure now.noted inner from)
      else if not (constant_time_eq proof (expected_proof a nonce))
      then (err bad_proof, record_failure now.noted inner from)
      else (
        ok token 0,
        record {
          nonces = inner.nonces;
          sessions = insert token now.noted (make_room max_sessions inner.sessions);
          failures = remove from inner.failures;
        },
      )

  unfoldable pub login_swept : Clock → Text → Auth → Inner → Text → Text → Text → Login × Inner
  unfolding failed_too_often judge lookup remove
  login_swept now token a inner nonce proof from =
      if failed_too_often now.throttle inner from
      then (err too_many_attempts, inner)
      else judge now token a
          (record {
            nonces = remove nonce inner.nonces;
            sessions = inner.sessions;
            failures = inner.failures;
          })
          nonce proof from (lookup nonce inner.nonces)

  unfoldable pub login : Clock → Text → Auth → Text → Text → Text → Login × Auth
  unfolding login_swept sweep
  login now token a nonce proof from =
      let done = login_swept now token a (sweep now.swept a.inner) nonce proof from in
      (done.0, record { password_hash = a.password_hash; inner = done.1 })

unfoldable pub challenge : Clock → Text → Auth → (Text × ℕ) × Auth
unfolding sweep make_room insert
challenge now nonce a =
    let inner = sweep now.swept a.inner in
    (
      (nonce, 60),
      record {
        password_hash = a.password_hash;
        inner = record {
          nonces = insert nonce now.noted (make_room max_nonces inner.nonces);
          sessions = inner.sessions;
          failures = inner.failures;
        };
      },
    )

unfoldable pub with_sessions : List (Text × ℕ) → Auth → Auth
with_sessions sessions a = record {
  password_hash = a.password_hash;
  inner = record { nonces = a.inner.nonces; sessions = sessions; failures = a.inner.failures };
}

-- `verify`; a session that it finds is marked as used now.
unfoldable pub verify : ℕ → Auth → Text → Bool × Auth
unfolding required is_empty has_key insert with_sessions
verify now a token =
    if not (required a)
    then (true, a)
    else if is_empty token
    then (false, a)
    else if has_key token a.inner.sessions
    then (true, with_sessions (insert token now a.inner.sessions) a)
    else (false, a)

unfoldable pub logout : Auth → Text → Auth
unfolding remove with_sessions
logout a token = with_sessions (remove token a.inner.sessions) a

-- A call from outside, with what the clock and the random source return in it.
pub data Call : Type 0 where
  challenge_call : Clock → Text → Call
  login_call : Clock → Text → Text → Text → Text → Call
  verify_call : ℕ → Text → Call
  logout_call : Text → Call

module _ (sha256 : Text → Text) where
  unfoldable pub exec : Call → Auth → Auth
  unfolding challenge login verify logout
  exec (challenge_call now nonce) a = (challenge now nonce a).1
  exec (login_call now token nonce proof from) a = (login sha256 now token a nonce proof from).1
  exec (verify_call now token) a = (verify now a token).1
  exec (logout_call token) a = logout a token

  unfoldable pub execs : List Call → Auth → Auth
  unfolding exec
  execs [] a = a
  execs (c ∷ cs) a = execs cs (exec c a)
