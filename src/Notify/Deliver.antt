-- ===== src/Notify/Deliver.antt =====
-- crates/s2l-notify/src/lib.rs: the attempts of a delivery. What one attempt does on the network is a
-- parameter, by its number: the request that `build` makes with the judgement of `check`, or the mail
-- that `smtp::send` sends. The waiting between the attempts is left out.
use stmp2log.Prelude.{
  ℕ, zero, suc, ◌+◌, ◌≤◌, ◌<◌, max, ◌≡◌, refl, Bool, true, false, not, ◌&&◌, ◌||◌, ltb, leb, ◌==◌,
  if◌then◌else◌, arith, Bool-cases, ==_iff, ◌-◌, inl, inr, [], Option, none, some, some_inj, sym,
  subst, ◌∙◌,
}
use stmp2log.Prelude.Text.{Text}
use stmp2log.Notify.{Outcome}

-- A request that was answered with a status and passed `check`, one that did not pass it, one without
-- an answer, with whether its address was bad; and a mail that was sent or not, with `retryable`.
pub data Attempt : Type 0 where
  answered : ℕ → Attempt
  refused : ℕ → Text → Attempt
  no_answer : Bool → Text → Attempt
  mail_sent : Attempt
  mail_failed : Text → Bool → Attempt

unfoldable pub is_retryable_status : ℕ → Bool
is_retryable_status status = status == 0 || status == 429 || (leb 500 status && ltb status 600)

unfoldable pub succeeded : Attempt → Bool
succeeded (answered status) = true
succeeded mail_sent = true
succeeded a = false

unfoldable pub may_retry : Attempt → Bool
unfolding is_retryable_status
may_retry (answered status) = false
may_retry (refused status err) = is_retryable_status status
may_retry (no_answer bad_url err) = not bad_url
may_retry mail_sent = false
may_retry (mail_failed err again) = again

unfoldable pub error_of : Attempt → Text
error_of (answered status) = []
error_of (refused status err) = err
error_of (no_answer bad_url err) = err
error_of mail_sent = []
error_of (mail_failed err again) = err

-- `last_status` after the attempt; only an answer sets it.
unfoldable pub status_after : ℕ → Attempt → ℕ
status_after last (answered status) = status
status_after last (refused status err) = status
status_after last (no_answer bad_url err) = last
status_after last mail_sent = 0
status_after last (mail_failed err again) = last

-- The status that an attempt tells, if it tells one: that of an answer, and 0 for a mail that was sent.
unfoldable pub status_of : Attempt → Option ℕ
status_of (answered status) = some status
status_of (refused status err) = some status
status_of (no_answer bad_url err) = none
status_of mail_sent = some 0
status_of (mail_failed err again) = none

status_after-none : (last : ℕ) (a : Attempt) → status_of a ≡ none → status_after last a ≡ last
unfolding status_of status_after
status_after-none last (answered status) h = cc
status_after-none last (refused status err) h = cc
status_after-none last (no_answer bad_url err) h = refl
status_after-none last mail_sent h = cc
status_after-none last (mail_failed err again) h = refl

status_after-some : (last s : ℕ) (a : Attempt) → status_of a ≡ some s → status_after last a ≡ s
unfolding status_of status_after
status_after-some last s (answered status) h = some_inj status s h
status_after-some last s (refused status err) h = some_inj status s h
status_after-some last s (no_answer bad_url err) h = cc
status_after-some last s mail_sent h = some_inj 0 s h
status_after-some last s (mail_failed err again) h = cc

module _ (attempt : ℕ → Attempt) (took_ms : ℕ → ℕ) where
  -- The outcome when the loop ends at the attempt `n`.
  unfoldable pub outcome : ℕ → ℕ → Outcome
  unfolding succeeded may_retry error_of status_after
  outcome n last = record {
    ok = succeeded (attempt n);
    error = error_of (attempt n);
    attempts = n;
    status = status_after last (attempt n);
    took_ms = took_ms n;
    retryable = may_retry (attempt n);
  }

  -- The loop at the attempt `n`, with `left` attempts behind it.
  unfoldable pub deliver_loop : ℕ → ℕ → ℕ → Outcome
  unfolding outcome may_retry status_after
  deliver_loop zero n last = outcome n last
  deliver_loop (suc left) n last =
      let rest = deliver_loop left (suc n) (status_after last (attempt n)) in
      if not (may_retry (attempt n)) then outcome n last else rest

  -- An outcome at the attempt `n` or later is that of its last attempt, which failed for good, succeeded
  -- or was the last allowed; the attempts before it failed and could be tried again. Its status is that of
  -- the last of the attempts that told one, and `start` if none did.
  pub record IsOutcome (n last start : ℕ) (o : Outcome) : Type 0 where
    pub first : n ≤ o.attempts
    pub limit : o.attempts ≤ last
    pub ok : o.ok ≡ succeeded (attempt o.attempts)
    pub retryable : o.retryable ≡ may_retry (attempt o.attempts)
    pub error : o.error ≡ error_of (attempt o.attempts)
    pub final : o.attempts < last → may_retry (attempt o.attempts) ≡ false
    pub before : (k : ℕ) → n ≤ k → k < o.attempts → may_retry (attempt k) ≡ true
    pub untold :
        ((k : ℕ) → n ≤ k → k ≤ o.attempts → status_of (attempt k) ≡ none) → o.status ≡ start
    pub told :
        (k s : ℕ)
        → n ≤ k
        → k ≤ o.attempts
        → status_of (attempt k) ≡ some s
        → ((l : ℕ) → k < l → l ≤ o.attempts → status_of (attempt l) ≡ none)
        → o.status ≡ s

  outcome-IsOutcome :
      (n last status : ℕ)
      → n ≤ last
      → (n < last → may_retry (attempt n) ≡ false)
      → IsOutcome n last status (outcome n status)
  unfolding outcome
  outcome-IsOutcome n last status h f = record {
    first = omega arith;
    limit = h;
    ok = refl;
    retryable = refl;
    error = refl;
    final = f;
    before = λ k a b. ground arith;
    untold = λ silent. status_after-none status (attempt n) (silent n (omega arith) (omega arith));
    told = λ k s a b e after.
        let here : k ≡ n = omega (arith, a, b) in
        status_after-some status s (attempt n) (subst (λ x. status_of (attempt x) ≡ some s) here e);
  }

  later :
      (n left start : ℕ) (o : Outcome)
      → may_retry (attempt n) ≡ true
      → IsOutcome (suc n) (suc n + left) (status_after start (attempt n)) o
      → IsOutcome n (n + suc left) start o
  later n left start o e v = record {
    first = omega (arith, v.first);
    limit = omega (arith, v.limit);
    ok = v.ok;
    retryable = v.retryable;
    error = v.error;
    final = λ h. v.final (omega arith);
    before = λ k a b. elim (Bool-cases (n == k)) [
      | inl q ↦ (let p : n ≡ k = (==_iff n k).0 q in rw⁻¹ p e)
      | inr q ↦ v.before k (ground arith) b
    ];
    untold = λ silent.
        v.untold (λ k a b. silent k (omega arith) b)
        ∙ status_after-none start (attempt n) (silent n (omega arith) (omega (arith, v.first)));
    told = λ k s a b f after. elim (Bool-cases (n == k)) [
      | inl q ↦
          let p : k ≡ n = sym ((==_iff n k).0 q) in
          v.untold (λ l c d. after l (omega arith) d)
          ∙ status_after-some start s (attempt n) (subst (λ x. status_of (attempt x) ≡ some s) p f)
      | inr q ↦ v.told k s (ground arith) b f after
    ];
  }

  IsOutcome-if :
      (n last start : ℕ) (b : Bool) (x y : Outcome)
      → (b ≡ true → IsOutcome n last start x)
      → (b ≡ false → IsOutcome n last start y)
      → IsOutcome n last start (if b then x else y)
  IsOutcome-if n last start true x y f g = f refl
  IsOutcome-if n last start false x y f g = g refl

  deliver_loop-IsOutcome :
      (left n status : ℕ) → IsOutcome n (n + left) status (deliver_loop left n status)
  unfolding deliver_loop
  deliver_loop-IsOutcome zero n status =
      outcome-IsOutcome n (n + 0) status (omega arith) (λ h. ground arith)
  deliver_loop-IsOutcome (suc left) n status =
      IsOutcome-if n (n + suc left) status (not (may_retry (attempt n))) (outcome n status)
        (deliver_loop left (suc n) (status_after status (attempt n)))
        (λ e. outcome-IsOutcome n (n + suc left) status (omega arith) (λ h. ground arith))
        (λ e.
          later n left status (deliver_loop left (suc n) (status_after status (attempt n)))
            (ground arith) (deliver_loop-IsOutcome left (suc n) (status_after status (attempt n))))

  unfoldable pub deliver : ℕ → Outcome
  unfolding deliver_loop
  deliver attempts = deliver_loop (max attempts 1 - 1) 1 0

  -- A delivery makes at least one attempt and no more than it is given; its outcome is that of the last
  -- attempt made, which is the last allowed unless it succeeded or failed for good; every attempt
  -- before it failed in a way that may pass; and the status is that of the last of the attempts that
  -- told one, and 0 if none did.
  pub deliver-IsOutcome : (attempts : ℕ) → IsOutcome 1 (max attempts 1) 0 (deliver attempts)
  unfolding deliver
  deliver-IsOutcome attempts =
      let e : 1 + (max attempts 1 - 1) ≡ max attempts 1 = omega arith in
      rw e at (deliver_loop-IsOutcome (max attempts 1 - 1) 1 0)
