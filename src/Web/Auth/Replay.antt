-- ===== src/Web/Auth/Replay.antt =====
-- crates/s2l-web/src/auth.rs: when `login` succeeds, and that a challenge serves once.
use stmp2log.Prelude.{
  ℕ, ◌≡◌, refl, List, [], ◌∷◌, Option, none, some, Bool, true, false, ◌||◌, length, ltb, leb,
  Bool-cases, inl, inr,
}
use stmp2log.Prelude.Text.{Text, text_eq, is_empty}
use stmp2log.Prelude.Assoc.{
  lookup, remove, insert, has_key, has_key-remove, has_key-remove_self, has_key-retain, lookup-none,
}
use stmp2log.Web.Auth

unfoldable pub is_ok : Auth.Login → Bool
is_ok (Auth.ok token ttl) = true
is_ok (Auth.err e) = false

unfoldable pub throttled : Auth.Login → Bool
throttled (Auth.err Auth.too_many_attempts) = true
throttled l = false

pub has_key-make_room :
    (x : Text) (n : ℕ) (m : List (Text × ℕ))
    → has_key x m ≡ false
    → has_key x (Auth.make_room n m) ≡ false
unfolding Auth.make_room
has_key-make_room x n [] h = h
has_key-make_room x n (e ∷ m) h = elim (Bool-cases (leb n (length (e ∷ m)))) [
  | inl c ↦ rw c (has_key-remove ((Auth.oldest_of e m).0) x (e ∷ m) h)
  | inr c ↦ rw c h
]

pub has_key-insert :
    (x k : Text) (v : ℕ) (m : List (Text × ℕ))
    → text_eq k x ≡ false
    → has_key x m ≡ false
    → has_key x (insert k v m) ≡ false
unfolding insert has_key
has_key-insert x k v m e h = rw e (has_key-remove k x m h)

-- The calls that issue a challenge `x`.
unfoldable pub issues : Text → Auth.Call → Bool
issues x (Auth.challenge_call now nonce) = text_eq nonce x
issues x c = false

unfoldable pub any_issues : Text → List Auth.Call → Bool
unfolding issues
any_issues x [] = false
any_issues x (c ∷ cs) = issues x c || any_issues x cs

verify-nonces :
    (now : ℕ) (a : Auth.Auth) (token : Text)
    → (Auth.verify now a token).1.inner.nonces ≡ a.inner.nonces
unfolding Auth.verify
verify-nonces now a token = elim (Bool-cases (Auth.required a)) [
  | inr r ↦ rw r refl
  | inl r ↦ rw r (elim (Bool-cases (is_empty token)) [
    | inl e ↦ rw e refl
    | inr e ↦ rw e (elim (Bool-cases (has_key token a.inner.sessions)) [
      | inl k ↦ rw k refl
      | inr k ↦ rw k refl
    ])
  ])
]

module _ (sha256 : Text → Text) where
  judge-nonces :
      (now : Auth.Clock) (token : Text) (a : Auth.Auth) (inner : Auth.Inner)
      (nonce proof from : Text) (issued : Option ℕ)
      → (Auth.judge sha256 now token a inner nonce proof from issued).1.nonces ≡ inner.nonces
  unfolding Auth.judge
  judge-nonces now token a inner nonce proof from none = refl
  judge-nonces now token a inner nonce proof from (some at) =
      elim (Bool-cases (ltb Auth.nonce_ttl (Auth.elapsed at now.age))) [
        | inl e ↦ rw e refl
        | inr e ↦
            rw e
              (elim (Bool-cases
                (Auth.constant_time_eq proof (Auth.expected_proof sha256 a nonce))) [
                  | inl c ↦ rw c refl
                  | inr c ↦ rw c refl
                ])
      ]

  login-has_key :
      (x : Text) (now : Auth.Clock) (token : Text) (a : Auth.Auth) (nonce proof from : Text)
      → has_key x a.inner.nonces ≡ false
      → has_key x (Auth.login sha256 now token a nonce proof from).1.inner.nonces ≡ false
  unfolding Auth.login
  login-has_key x now token a nonce proof from h =
      let inner = Auth.sweep now.swept a.inner in
      let l : has_key x inner.nonces ≡ false =
        has_key-retain (λ at. leb (Auth.elapsed at now.swept) Auth.nonce_ttl) x a.inner.nonces h in
      elim (Bool-cases (Auth.failed_too_often now.throttle inner from)) [
        | inl e ↦ rw e l
        | inr e ↦ rw e (
            rw
              (judge-nonces now token a
                (record {
                  nonces = remove nonce inner.nonces;
                  sessions = inner.sessions;
                  failures = inner.failures;
                })
                nonce proof from (lookup nonce inner.nonces))
              (has_key-remove nonce x inner.nonces l))
      ]

  -- A login that is not turned away for too many attempts takes its challenge out of the table.
  login-spent :
      (now : Auth.Clock) (token : Text) (a : Auth.Auth) (nonce proof from : Text)
      → throttled ((Auth.login sha256 now token a nonce proof from).0) ≡ false
      → has_key nonce (Auth.login sha256 now token a nonce proof from).1.inner.nonces ≡ false
  unfolding Auth.login throttled
  login-spent now token a nonce proof from h =
      let inner = Auth.sweep now.swept a.inner in
      elim (Bool-cases (Auth.failed_too_often now.throttle inner from)) [
        | inl e ↦ cc
        | inr e ↦ rw e (
            rw
              (judge-nonces now token a
                (record {
                  nonces = remove nonce inner.nonces;
                  sessions = inner.sessions;
                  failures = inner.failures;
                })
                nonce proof from (lookup nonce inner.nonces))
              (has_key-remove_self nonce inner.nonces))
      ]

  exec-has_key :
      (x : Text) (c : Auth.Call) (a : Auth.Auth)
      → issues x c ≡ false
      → has_key x a.inner.nonces ≡ false
      → has_key x (Auth.exec sha256 c a).inner.nonces ≡ false
  unfolding Auth.exec issues
  exec-has_key x (Auth.challenge_call now nonce) a i h =
      let live = (Auth.sweep now.swept a.inner).nonces in
      has_key-insert x nonce now.noted (Auth.make_room Auth.max_nonces live) i (
        has_key-make_room x Auth.max_nonces live (
          has_key-retain (λ at. leb (Auth.elapsed at now.swept) Auth.nonce_ttl) x a.inner.nonces h))
  exec-has_key x (Auth.login_call now token nonce proof from) a i h =
      login-has_key x now token a nonce proof from h
  exec-has_key x (Auth.verify_call now token) a i h = rw (verify-nonces now a token) h
  exec-has_key x (Auth.logout_call token) a i h = h

  execs-has_key :
      (x : Text) (cs : List Auth.Call) (a : Auth.Auth)
      → any_issues x cs ≡ false
      → has_key x a.inner.nonces ≡ false
      → has_key x (Auth.execs sha256 cs a).inner.nonces ≡ false
  unfolding Auth.execs any_issues
  execs-has_key x [] a i h = h
  execs-has_key x (c ∷ cs) a i h = elim (Bool-cases (issues x c)) [
    | inl e ↦ cc
    | inr e ↦ execs-has_key x cs (Auth.exec sha256 c a) (rw e at i) (exec-has_key x c a e h)
  ]

  unknown_nonce :
      (now : Auth.Clock) (token : Text) (a : Auth.Auth) (nonce proof from : Text)
      → has_key nonce a.inner.nonces ≡ false
      → is_ok ((Auth.login sha256 now token a nonce proof from).0) ≡ false
  unfolding Auth.login is_ok
  unknown_nonce now token a nonce proof from h =
      let inner = Auth.sweep now.swept a.inner in
      let l : lookup nonce inner.nonces ≡ none = lookup-none nonce inner.nonces (
        has_key-retain (λ at. leb (Auth.elapsed at now.swept) Auth.nonce_ttl) nonce a.inner.nonces
          h) in
      elim (Bool-cases (Auth.failed_too_often now.throttle inner from)) [
        | inl e ↦ rw e refl
        | inr e ↦ rw e (rw l refl)
      ]

  -- A challenge serves once: after a login on it that was not turned away for too many attempts, no
  -- later login on it succeeds, whatever calls come between, unless they issue the challenge again.
  pub replay_refused :
      (now later : Auth.Clock) (token again : Text) (a : Auth.Auth)
      (nonce proof replay from other : Text) (cs : List Auth.Call)
      → throttled ((Auth.login sha256 now token a nonce proof from).0) ≡ false
      → any_issues nonce cs ≡ false
      → is_ok (
          (Auth.login sha256 later again
            (Auth.execs sha256 cs ((Auth.login sha256 now token a nonce proof from).1))
            nonce
            replay
            other).0)
        ≡ false
  replay_refused now later token again a nonce proof replay from other cs h i =
      let next = (Auth.login sha256 now token a nonce proof from).1 in
      unknown_nonce later again (Auth.execs sha256 cs next) nonce replay other
        (execs-has_key nonce cs next i (login-spent now token a nonce proof from h))
