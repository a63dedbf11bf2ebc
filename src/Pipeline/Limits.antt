-- ===== src/Pipeline/Limits.antt =====
-- crates/stmp2log/src/pipeline.rs: a pass over the retry queue that runs alone keeps the limits, and what `run_retry`
-- waits after it.
use mathlib.Core.Path.{subst}
use stmp2log.Prelude.{ℕ, zero, suc, ◌≡◌, refl, List, [], ◌∷◌, Option, none, some, true, false, All}
use stmp2log.Prelude.Text.{Text}
use stmp2log.Retry
use stmp2log.Retry.{Pending}
use stmp2log.Retry.Order.{IsSorted, Before}
use stmp2log.Pipeline
use stmp2log.Pipeline.{World, Pipe}
use stmp2log.Pipeline.Resend
use stmp2log.Pipeline.Resend.{Pass, Sending, went, later, give_up}
use stmp2log.Pipeline.Flush.{send_queued-at}
use stmp2log.Pipeline.Keeps.{IsGood, logged-IsGood}

-- What a turn starts with: the log within its limit, and a sorted queue behind an entry that is not
-- newer than its entries.
unfoldable Taken : Pipe → Pending → Type 0
Taken p e = IsGood p × All (Before e) p.retry.items

All-Before_same :
    (e first : Pending) (rest : List Pending)
    → e.at ≡ first.at
    → All (Before first) rest
    → All (Before e) rest
All-Before_same e first rest h a = rw h a

unfoldable KeepsGood : (ℕ → Pipe → Option (Pass × Pipe)) → Type 0
KeepsGood go = (s : ℕ) (q : Pipe) (r : Pass × Pipe) → IsGood q → go s q ≡ some r → IsGood r.1

-- The pipeline that a pass leaves is good, if it leaves one.
unfoldable GoodResult : Option (Pass × Pipe) → Type 0
GoodResult none = Unit
GoodResult (some r) = IsGood r.1

stalled-IsGood :
    (sent : ℕ) (p : Pipe) (e : Pending) (err : Text)
    → IsGood p
    → All (Before e) p.retry.items
    → IsGood (Pipeline.with_retry p (Retry.requeue p.retry (Resend.with_error e err)))
unfolding IsGood Pipeline.with_retry Retry.requeue Resend.with_error
stalled-IsGood sent p e err (l, s) a = (l, (a, s))

without_first :
    (w : World) (p : Pipe) (first : Pending) (rest : List Pending)
    → p.retry.items ≡ first ∷ rest
    → IsGood p
    → Taken (Pipeline.ticked (Pipeline.with_retry p (record p.retry { items = rest }))) (
        (Resend.send_queued w
          (Pipeline.with_retry p (record p.retry { items = rest }))
          (Resend.tried first)).0)
unfolding Taken IsGood Pipeline.with_retry Pipeline.ticked Resend.tried
without_first w p first rest q (l, s) =
    let taken = Pipeline.with_retry p (record p.retry { items = rest }) in
    let both : IsSorted (first ∷ rest) = rw q at s in
    (
      (l, both.1),
      All-Before_same ((Resend.send_queued w taken (Resend.tried first)).0) first rest
          (send_queued-at w taken (Resend.tried first)) both.0,
    )

flush_next-IsGood :
    (w : World) (sent : ℕ) (p : Pipe) (e : Pending) (s : Sending)
    (go : ℕ → Pipe → Option (Pass × Pipe)) (r : Pass × Pipe)
    → Taken p e
    → KeepsGood go
    → Resend.flush_next w sent p e s go ≡ some r
    → IsGood r.1
unfolding Resend.flush_next KeepsGood Taken Resend.settle GoodResult
flush_next-IsGood w sent p e (went took) go r (g, a) on h =
    on (suc sent) (Resend.settle w p e true [] took Pipeline.Mark.resent) r (logged-IsGood p _ g) h
flush_next-IsGood w sent p e (give_up err) go r (g, a) on h =
    on sent (Resend.settle w p e false err 0 Pipeline.Mark.dropped) r (logged-IsGood p _ g) h
flush_next-IsGood w sent p e (later err) go r (g, a) on h =
    subst (λ o. GoodResult o) h (stalled-IsGood sent p e err g a)

flush_loop-IsGood :
    (w : World) (n sent : ℕ) (p : Pipe) (es : List Pending) (r : Pass × Pipe)
    → p.retry.items ≡ es
    → IsGood p
    → Resend.flush_loop w n sent p ≡ some r
    → IsGood r.1
unfolding Resend.flush_loop KeepsGood GoodResult IsGood
flush_loop-IsGood w zero sent p es r q g h = cc
flush_loop-IsGood w (suc n) sent p [] r q g h = subst (λ o. GoodResult o) (rw q at h) (g.0, tt)
flush_loop-IsGood w (suc n) sent p (first ∷ rest) r q g h =
    let taken = Pipeline.with_retry p (record p.retry { items = rest }) in
    let done = Resend.send_queued w taken (Resend.tried first) in
    flush_next-IsGood w sent (Pipeline.ticked taken) done.0 done.1
      (λ s k. Resend.flush_loop w n s k) r (without_first w p first rest q g)
      (λ s k r2 g2 h2. flush_loop-IsGood w n s k k.retry.items r2 refl g2 h2) (rw q at h)

-- A pass over the retry queue that starts with the log within its limit and a sorted queue leaves them
-- so.
pub flush-IsGood :
    (w : World) (p : Pipe) (r : Pass × Pipe) → IsGood p → Resend.flush w p ≡ some r → IsGood r.1
unfolding Resend.flush
flush-IsGood w p r g h = flush_loop-IsGood w (Resend.flush_fuel p) 0 p p.retry.items r refl g h
