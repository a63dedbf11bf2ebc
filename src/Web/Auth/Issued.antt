-- ===== src/Web/Auth/Issued.antt =====
-- crates/s2l-web/src/auth.rs: when `login` succeeds, and which tokens `verify` accepts.
use stmp2log.Prelude.{
  ℕ, ◌≡◌, refl, ap, List, [], ◌∷◌, ◌++◌, Option, none, some, Bool, true, false, ◌||◌, ◌&&◌, ltb,
  leb, ◌-◌, ◌*◌, ◌≤◌, ◌<◌, min, Bool-cases, inl, inr,
}
use stmp2log.Prelude.Text.{Text, text_eq, text_eq→eq, is_empty, codes}
use stmp2log.Prelude.Assoc.{
  lookup, remove, insert, retain, has_key, has_key-remove, has_key-remove_self,
}
use stmp2log.Web.Auth
use stmp2log.Web.Auth.Replay.{is_ok, has_key-make_room, has_key-insert}

touched :
    (x k : Text) (v : ℕ) (m : List (Text × ℕ))
    → has_key k m ≡ true
    → has_key x m ≡ false
    → has_key x (insert k v m) ≡ false
touched x k v m t h = elim (Bool-cases (text_eq k x)) [
  | inl e ↦ (let p : k ≡ x = text_eq→eq k x e in cc)
  | inr e ↦ has_key-insert x k v m e h
]

verify-sessions :
    (x : Text) (now : ℕ) (a : Auth.Auth) (token : Text)
    → has_key x a.inner.sessions ≡ false
    → has_key x (Auth.verify now a token).1.inner.sessions ≡ false
unfolding Auth.verify
verify-sessions x now a token h = elim (Bool-cases (Auth.required a)) [
  | inr r ↦ rw r h
  | inl r ↦ rw r (elim (Bool-cases (is_empty token)) [
    | inl e ↦ rw e h
    | inr e ↦ rw e (elim (Bool-cases (has_key token a.inner.sessions)) [
      | inl k ↦ rw k (touched x token now a.inner.sessions k h)
      | inr k ↦ rw k h
    ])
  ])
]

verify_unknown :
    (now : ℕ) (a : Auth.Auth) (token : Text)
    → Auth.required a ≡ true
    → has_key token a.inner.sessions ≡ false
    → (Auth.verify now a token).0 ≡ false
unfolding Auth.verify
verify_unknown now a token r h = elim (Bool-cases (is_empty token)) [
  | inl e ↦ rw r (rw e refl)
  | inr e ↦ rw r (rw e (rw h refl))
]

verify-password_hash :
    (now : ℕ) (a : Auth.Auth) (token : Text)
    → (Auth.verify now a token).1.password_hash ≡ a.password_hash
unfolding Auth.verify
verify-password_hash now a token = elim (Bool-cases (Auth.required a)) [
  | inr r ↦ rw r refl
  | inl r ↦ rw r (elim (Bool-cases (is_empty token)) [
    | inl e ↦ rw e refl
    | inr e ↦ rw e (elim (Bool-cases (has_key token a.inner.sessions)) [
      | inl k ↦ rw k refl
      | inr k ↦ rw k refl
    ])
  ])
]

module _ (sha256 : Text → Text) where
  -- What `login` asks of the challenge's entry: it is not older than a minute, and the proof is right.
  unfoldable proves : Auth.Clock → Auth.Auth → Text → Text → Option ℕ → Bool
  proves now a nonce proof none = false
  proves now a nonce proof (some at) =
      leb (Auth.elapsed at now.age) Auth.nonce_ttl
      && text_eq proof (Auth.expected_proof sha256 a nonce)

  -- The conditions of a login with the password of the hash `h`, written out in nanoseconds: the challenge was
  -- issued no more than 60 seconds ago, at either reading of the clock; the proof is the hash of the
  -- challenge, a colon and the hash of the password; and after more than three failures of the last ten
  -- minutes from its source, as many seconds have gone by since the last as there were failures over
  -- three, 30 at most.
  pub record MayLogIn (now : Auth.Clock) (a : Auth.Auth) (h nonce proof from : Text) : Type 0 where
    pub at : ℕ
    pub issued :
        lookup nonce (retain (λ t. leb (now.swept - t) 60000000000) a.inner.nonces) ≡ some at
    pub fresh : now.age - at ≤ 60000000000
    pub proven : proof ≡ sha256 (nonce ++ codes ":" ++ h)
    pub waited :
        (n last : ℕ)
        → lookup from (retain (λ e. leb (now.swept - e.1) 600000000000) a.inner.failures)
          ≡ some (n, last)
        → 3 < n
        → min (n - 3) 30 * 1000000000 ≤ now.throttle - last

  -- The calls that return the token `x`.
  unfoldable pub grants : Text → Auth.Call → Auth.Auth → Bool
  unfolding is_ok
  grants x (Auth.login_call now token nonce proof from) a =
      is_ok ((Auth.login sha256 now token a nonce proof from).0) && text_eq token x
  grants x c a = false

  unfoldable pub granted : Text → List Auth.Call → Auth.Auth → Bool
  unfolding grants
  granted x [] a = false
  granted x (c ∷ cs) a = grants x c a || granted x cs (Auth.exec sha256 c a)

  judge-sessions :
      (x : Text) (now : Auth.Clock) (token : Text) (a : Auth.Auth) (inner : Auth.Inner)
      (nonce proof from : Text) (issued : Option ℕ)
      → (is_ok ((Auth.judge sha256 now token a inner nonce proof from issued).0) && text_eq token x)
        ≡ false
      → has_key x inner.sessions ≡ false
      → has_key x (Auth.judge sha256 now token a inner nonce proof from issued).1.sessions ≡ false
  unfolding Auth.judge is_ok
  judge-sessions x now token a inner nonce proof from none g h = h
  judge-sessions x now token a inner nonce proof from (some at) g h =
      elim (Bool-cases (ltb Auth.nonce_ttl (Auth.elapsed at now.age))) [
        | inl e ↦ rw e h
        | inr e ↦
            rw e
              (elim (Bool-cases
                (Auth.constant_time_eq proof (Auth.expected_proof sha256 a nonce))) [
                  | inl c ↦ rw c (
                      has_key-insert x token now.noted
                        (Auth.make_room Auth.max_sessions inner.sessions) (rw c at (rw e at g))
                        (has_key-make_room x Auth.max_sessions inner.sessions h))
                  | inr c ↦ rw c h
                ])
      ]

  login-sessions :
      (x : Text) (now : Auth.Clock) (token : Text) (a : Auth.Auth) (nonce proof from : Text)
      → (is_ok ((Auth.login sha256 now token a nonce proof from).0) && text_eq token x) ≡ false
      → has_key x a.inner.sessions ≡ false
      → has_key x (Auth.login sha256 now token a nonce proof from).1.inner.sessions ≡ false
  unfolding Auth.login
  login-sessions x now token a nonce proof from g h =
      let inner = Auth.sweep now.swept a.inner in
      elim (Bool-cases (Auth.failed_too_often now.throttle inner from)) [
        | inl e ↦ rw e h
        | inr e ↦ rw e (
            judge-sessions x now token a
              (record {
                nonces = remove nonce inner.nonces;
                sessions = inner.sessions;
                failures = inner.failures;
              })
              nonce proof from (lookup nonce inner.nonces) (rw e at g) h)
      ]

  exec-sessions :
      (x : Text) (c : Auth.Call) (a : Auth.Auth)
      → grants x c a ≡ false
      → has_key x a.inner.sessions ≡ false
      → has_key x (Auth.exec sha256 c a).inner.sessions ≡ false
  unfolding Auth.exec grants
  exec-sessions x (Auth.challenge_call now nonce) a g h = h
  exec-sessions x (Auth.login_call now token nonce proof from) a g h =
      login-sessions x now token a nonce proof from g h
  exec-sessions x (Auth.verify_call now token) a g h = verify-sessions x now a token h
  exec-sessions x (Auth.logout_call token) a g h = has_key-remove token x a.inner.sessions h

  exec-required :
      (c : Auth.Call) (a : Auth.Auth) → Auth.required (Auth.exec sha256 c a) ≡ Auth.required a
  unfolding Auth.exec Auth.required
  exec-required (Auth.challenge_call now nonce) a = refl
  exec-required (Auth.login_call now token nonce proof from) a = refl
  exec-required (Auth.verify_call now token) a =
      ap (λ h. elim h [ none ↦ false | some x ↦ true ]) (verify-password_hash now a token)
  exec-required (Auth.logout_call token) a = refl

  never_granted :
      (x : Text) (now : ℕ) (cs : List Auth.Call) (a : Auth.Auth)
      → Auth.required a ≡ true
      → granted x cs a ≡ false
      → has_key x a.inner.sessions ≡ false
      → (Auth.verify now (Auth.execs sha256 cs a) x).0 ≡ false
  unfolding Auth.execs granted
  never_granted x now [] a r g h = verify_unknown now a x r h
  never_granted x now (c ∷ cs) a r g h = elim (Bool-cases (grants x c a)) [
    | inl e ↦ cc
    | inr e ↦
        never_granted x now cs (Auth.exec sha256 c a) (rw (exec-required c a) r) (rw e at g)
          (exec-sessions x c a e h)
  ]

  -- With a password, whatever calls come after the start, a token that no successful login among them
  -- returned is not accepted.
  pub verify-granted :
      (password x : Text) (now : ℕ) (cs : List Auth.Call)
      → is_empty password ≡ false
      → granted x cs (Auth.new sha256 password) ≡ false
      → (Auth.verify now (Auth.execs sha256 cs (Auth.new sha256 password)) x).0 ≡ false
  unfolding Auth.new Auth.required has_key
  verify-granted password x now cs p g =
      never_granted x now cs (Auth.new sha256 password) (rw p refl) g refl

  -- With a password, a token that was logged out is not accepted afterwards, whatever calls come between,
  -- unless a successful login among them returned it again.
  pub verify-logout :
      (a : Auth.Auth) (x : Text) (now : ℕ) (cs : List Auth.Call)
      → Auth.required a ≡ true
      → granted x cs (Auth.logout a x) ≡ false
      → (Auth.verify now (Auth.execs sha256 cs (Auth.logout a x)) x).0 ≡ false
  unfolding Auth.logout Auth.required
  verify-logout a x now cs r g =
      never_granted x now cs (Auth.logout a x) r g (has_key-remove_self x a.inner.sessions)
