-- ===== src/Web/Auth/Bounds.antt =====
-- crates/s2l-web/src/auth.rs: the limits on the tables of challenges and sessions.
use stmp2log.Prelude.{
  ℕ, ◌+◌, ◌≤◌, ◌≡◌, refl, List, [], ◌∷◌, Option, none, some, ◌<◌, true, length, ltb, leb, arith,
  Bool-cases, inl, inr,
}
use stmp2log.Prelude.Text.{Text, text_eq_refl, is_empty}
use stmp2log.Prelude.Assoc.{
  lookup, remove, insert, has_key, length-remove, length-retain, length-remove_some,
}
use stmp2log.Web.Auth

has_key_self : (k : Text) (t : ℕ) (m : List (Text × ℕ)) → has_key k ((k, t) ∷ m) ≡ true
unfolding has_key
has_key_self k t m = rw (text_eq_refl k) refl

has_key_second :
    (x k j : Text) (t u : ℕ) (m : List (Text × ℕ))
    → has_key x ((k, t) ∷ m) ≡ true
    → has_key x ((k, t) ∷ (j, u) ∷ m) ≡ true
unfolding has_key
has_key_second x k j t u m h = ground arith

has_key_first :
    (x k j : Text) (t u : ℕ) (m : List (Text × ℕ))
    → has_key x ((j, u) ∷ m) ≡ true
    → has_key x ((k, t) ∷ (j, u) ∷ m) ≡ true
unfolding has_key
has_key_first x k j t u m h = ground arith

oldest_of-has_key :
    (e : Text × ℕ) (m : List (Text × ℕ)) → has_key ((Auth.oldest_of e m).0) (e ∷ m) ≡ true
unfolding Auth.oldest_of
oldest_of-has_key (k, t) [] = has_key_self k t []
oldest_of-has_key (k, t) ((j, u) ∷ m) = elim (Bool-cases (ltb u t)) [
  | inl e ↦
      rw e (has_key_first ((Auth.oldest_of (j, u) m).0) k j t u m (oldest_of-has_key (j, u) m))
  | inr e ↦
      rw e (has_key_second ((Auth.oldest_of (k, t) m).0) k j t u m (oldest_of-has_key (k, t) m))
]

make_room_lem :
    (n : ℕ) (m : List (Text × ℕ)) → 0 < n → length m ≤ n → length (Auth.make_room n m) + 1 ≤ n
unfolding Auth.make_room
make_room_lem n [] p h = omega arith
make_room_lem n (e ∷ m) p h = elim (Bool-cases (leb n (length (e ∷ m)))) [
  | inl c ↦
      rw c
        (omega (arith, length-remove_some ((Auth.oldest_of e m).0) (e ∷ m) (oldest_of-has_key e m)))
  | inr c ↦ rw c (ground arith)
]

length-insert :
    (n : ℕ) (k : Text) (v : ℕ) (m : List (Text × ℕ)) → length m + 1 ≤ n → length (insert k v m) ≤ n
unfolding insert
length-insert n k v m h = omega (arith, length-remove k m)

length-insert_old :
    (k : Text) (v : ℕ) (m : List (Text × ℕ)) → has_key k m ≡ true → length (insert k v m) ≤ length m
unfolding insert
length-insert_old k v m h = omega (arith, length-remove_some k m h)

-- The tables are within their limits.
unfoldable pub IsBounded : Auth.Auth → Type 0
IsBounded a =
    (length a.inner.nonces ≤ Auth.max_nonces) × (length a.inner.sessions ≤ Auth.max_sessions)

challenge-IsBounded :
    (now : Auth.Clock) (nonce : Text) (a : Auth.Auth)
    → IsBounded a
    → IsBounded ((Auth.challenge now nonce a).1)
unfolding IsBounded Auth.challenge
challenge-IsBounded now nonce a h =
    let live = (Auth.sweep now.swept a.inner).nonces in
    let l : length live ≤ Auth.max_nonces = omega (
      arith,
      length-retain (λ at. leb (Auth.elapsed at now.swept) Auth.nonce_ttl) a.inner.nonces,
    ) in
    (
      length-insert Auth.max_nonces nonce now.noted (Auth.make_room Auth.max_nonces live)
          (make_room_lem Auth.max_nonces live (omega arith) l),
      h.1,
    )

logout-IsBounded : (a : Auth.Auth) (token : Text) → IsBounded a → IsBounded (Auth.logout a token)
unfolding IsBounded Auth.logout
logout-IsBounded a token h = (h.0, omega (arith, length-remove token a.inner.sessions))

verify-IsBounded :
    (now : ℕ) (a : Auth.Auth) (token : Text) → IsBounded a → IsBounded ((Auth.verify now a token).1)
unfolding IsBounded Auth.verify
verify-IsBounded now a token h = elim (Bool-cases (Auth.required a)) [
  | inr r ↦ rw r h
  | inl r ↦ rw r (elim (Bool-cases (is_empty token)) [
    | inl e ↦ rw e h
    | inr e ↦ rw e (elim (Bool-cases (has_key token a.inner.sessions)) [
      | inl k ↦ rw k (h.0, omega (arith, length-insert_old token now a.inner.sessions k))
      | inr k ↦ rw k h
    ])
  ])
]

module _ (sha256 : Text → Text) where
  judge-bounds :
      (now : Auth.Clock) (token : Text) (a : Auth.Auth) (inner : Auth.Inner)
      (nonce proof from : Text) (issued : Option ℕ)
      → length inner.nonces ≤ Auth.max_nonces
      → length inner.sessions ≤ Auth.max_sessions
      → (length (Auth.judge sha256 now token a inner nonce proof from issued).1.nonces
          ≤ Auth.max_nonces)
        × (length (Auth.judge sha256 now token a inner nonce proof from issued).1.sessions
            ≤ Auth.max_sessions)
  unfolding Auth.judge
  judge-bounds now token a inner nonce proof from none n s = (n, s)
  judge-bounds now token a inner nonce proof from (some at) n s =
      elim (Bool-cases (ltb Auth.nonce_ttl (Auth.elapsed at now.age))) [
        | inl e ↦ rw e (n, s)
        | inr e ↦
            rw e
              (elim (Bool-cases
                (Auth.constant_time_eq proof (Auth.expected_proof sha256 a nonce))) [
                  | inl c ↦ rw c (
                    n,
                    length-insert Auth.max_sessions token now.noted
                        (Auth.make_room Auth.max_sessions inner.sessions)
                        (make_room_lem Auth.max_sessions inner.sessions (omega arith) s),
                  )
                  | inr c ↦ rw c (n, s)
                ])
      ]

  login-IsBounded :
      (now : Auth.Clock) (token : Text) (a : Auth.Auth) (nonce proof from : Text)
      → IsBounded a
      → IsBounded ((Auth.login sha256 now token a nonce proof from).1)
  unfolding IsBounded Auth.login
  login-IsBounded now token a nonce proof from h =
      let inner = Auth.sweep now.swept a.inner in
      let l : length inner.nonces ≤ Auth.max_nonces = omega (
        arith,
        length-retain (λ at. leb (Auth.elapsed at now.swept) Auth.nonce_ttl) a.inner.nonces,
      ) in
      elim (Bool-cases (Auth.failed_too_often now.throttle inner from)) [
        | inl e ↦ rw e (l, h.1)
        | inr e ↦ rw e (
            judge-bounds now token a
              (record {
                nonces = remove nonce inner.nonces;
                sessions = inner.sessions;
                failures = inner.failures;
              })
              nonce proof from (lookup nonce inner.nonces)
              (omega (arith, length-remove nonce inner.nonces)) (h.1))
      ]

  exec-IsBounded : (c : Auth.Call) (a : Auth.Auth) → IsBounded a → IsBounded (Auth.exec sha256 c a)
  unfolding Auth.exec
  exec-IsBounded (Auth.challenge_call now nonce) a h = challenge-IsBounded now nonce a h
  exec-IsBounded (Auth.login_call now token nonce proof from) a h =
      login-IsBounded now token a nonce proof from h
  exec-IsBounded (Auth.verify_call now token) a h = verify-IsBounded now a token h
  exec-IsBounded (Auth.logout_call token) a h = logout-IsBounded a token h

  -- Whatever calls come, a table of challenges with at most 256 entries and a table of sessions with at
  -- most 64 stay so.
  pub execs-IsBounded :
      (cs : List Auth.Call) (a : Auth.Auth) → IsBounded a → IsBounded (Auth.execs sha256 cs a)
  unfolding Auth.execs
  execs-IsBounded [] a h = h
  execs-IsBounded (c ∷ cs) a h = execs-IsBounded cs (Auth.exec sha256 c a) (exec-IsBounded c a h)
