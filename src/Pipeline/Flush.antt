-- ===== src/Pipeline/Flush.antt =====
-- crates/stmp2log/src/pipeline.rs: what a pass over the retry queue leaves in it.
use stmp2log.Prelude.{
  ℕ, zero, suc, ◌+◌, ◌≤◌, ◌<◌, ◌≡◌, refl, List, [], ◌∷◌, map, Option, none, some, true, false,
  length, drop, ltb, arith, Bool-cases, inl, inr,
}
use stmp2log.Prelude.Int.{ℤ}
use stmp2log.Retry
use stmp2log.Retry.{Pending}
use stmp2log.State
use stmp2log.Pipeline
use stmp2log.Pipeline.{World, Pipe}
use stmp2log.Pipeline.Resend
use stmp2log.Pipeline.Resend.{Pass, Sending, went, later, give_up}

unfoldable pub times : List Pending → List ℤ
times es = map (λ e. e.at) es

send_notify-at :
    (w : World) (p : Pipe) (e : Pending) (n : Retry.QueuedNotify) (o : Option State.ChannelCfg)
    → (Resend.send_notify w p e n o).0.at ≡ e.at
unfolding Resend.send_notify
send_notify-at w p e n none = refl
send_notify-at w p e n (some cfg) = elim (Bool-cases cfg.enabled) [
  | inl h ↦ rw h refl
  | inr h ↦ rw h refl
]

send_item-at :
    (w : World) (p : Pipe) (e : Pending) (i : Retry.Item) → (Resend.send_item w p e i).0.at ≡ e.at
unfolding Resend.send_item
send_item-at w p e (Retry.notify n) = send_notify-at w p e n (State.channel_of w.state n.channel)
send_item-at w p e (Retry.push_item q) = refl

pub send_queued-at : (w : World) (p : Pipe) (e : Pending) → (Resend.send_queued w p e).0.at ≡ e.at
unfolding Resend.send_queued
send_queued-at w p e = send_item-at w p e e.item

-- What a pass leaves: `gone` entries are gone, all from the front, the others keep their times and
-- their order, no more entries were sent than are gone, and the pass stalled exactly if entries are left.
unfoldable pub Leaves : ℕ → List Pending → Pass × Pipe → Type 0
Leaves sent es r =
    (gone : ℕ) × (times r.1.retry.items ≡ drop gone (times es))
    × (r.0.sent ≤ sent + gone)
    × (r.0.stalled ≡ ltb 0 (length r.1.retry.items))

one_more :
    (sent sent' : ℕ) (e : Pending) (es : List Pending) (r : Pass × Pipe)
    → sent' ≤ suc sent
    → Leaves sent' es r
    → Leaves sent (e ∷ es) r
unfolding Leaves times
one_more sent sent' e es r l (gone, t, s, x) = (suc gone, t, omega arith, x)

nothing_left :
    (sent : ℕ) (p : Pipe)
    → p.retry.items ≡ []
    → Leaves sent [] (record { sent = sent; stalled = false }, p)
unfolding Leaves times
nothing_left sent p q = (0, rw q refl, omega arith, rw q refl)

-- The rest of the loop does its part for the entries behind the first.
unfoldable GoesOn : List Pending → (ℕ → Pipe → Option (Pass × Pipe)) → Type 0
unfolding Leaves
GoesOn rest go =
    (s : ℕ) (q : Pipe)
    → q.retry.items ≡ rest
    → (r : Pass × Pipe) × (go s q ≡ some r) × Leaves s rest r

flush_next-Leaves :
    (w : World) (sent : ℕ) (p : Pipe) (e first : Pending) (rest : List Pending) (s : Sending)
    (go : ℕ → Pipe → Option (Pass × Pipe))
    → p.retry.items ≡ rest
    → e.at ≡ first.at
    → GoesOn rest go
    → (r : Pass × Pipe) × (Resend.flush_next w sent p e s go ≡ some r)
      × Leaves sent (first ∷ rest) r
unfolding Resend.flush_next GoesOn Leaves times Retry.requeue
flush_next-Leaves w sent p e first rest (went took) go q h on =
    let next = Resend.settle w p e true [] took Pipeline.Mark.resent in
    let (r, f, l) = on (suc sent) next q in
    (r, f, one_more sent (suc sent) first rest r (omega arith) l)
flush_next-Leaves w sent p e first rest (give_up err) go q h on =
    let next = Resend.settle w p e false err 0 Pipeline.Mark.dropped in
    let (r, f, l) = on sent next q in (r, f, one_more sent sent first rest r (omega arith) l)
flush_next-Leaves w sent p e first rest (later err) go q h on = (
  (
    record { sent = sent; stalled = true },
    Pipeline.with_retry p (Retry.requeue p.retry (Resend.with_error e err)),
  ),
  refl,
  (0, rw q (rw h refl), omega arith, ground arith),
)

flush_loop-Leaves :
    (w : World) (n sent : ℕ) (p : Pipe) (es : List Pending)
    → p.retry.items ≡ es
    → length es < n
    → (r : Pass × Pipe) × (Resend.flush_loop w n sent p ≡ some r) × Leaves sent es r
unfolding Resend.flush_loop GoesOn
flush_loop-Leaves w zero sent p es q h = ground arith
flush_loop-Leaves w (suc n) sent p [] q h =
    ((record { sent = sent; stalled = false }, p), rw q refl, nothing_left sent p q)
flush_loop-Leaves w (suc n) sent p (first ∷ rest) q h =
    let taken = Pipeline.with_retry p (record p.retry { items = rest }) in
    let done = Resend.send_queued w taken (Resend.tried first) in
    let r : (r : Pass × Pipe) × (Resend.flush_next w sent (Pipeline.ticked taken) done.0 done.1
            (λ s k. Resend.flush_loop w n s k)
          ≡ some r)
        × Leaves sent (first ∷ rest) r =
      flush_next-Leaves w sent (Pipeline.ticked taken) done.0 first rest done.1
        (λ s k. Resend.flush_loop w n s k) refl (send_queued-at w taken (Resend.tried first))
        (λ s k e. flush_loop-Leaves w n s k rest e (omega arith)) in
    (r.0, rw q (r.1), r.2)

-- A pass over the retry queue ends. The entries that are gone from the queue stood at its front, the
-- others keep their times and their order, no more entries were sent than are gone, and the pass is
-- stalled exactly if it leaves entries in the queue.
pub flush-Leaves :
    (w : World) (p : Pipe)
    → (r : Pass × Pipe) × (Resend.flush w p ≡ some r) × Leaves 0 p.retry.items r
unfolding Resend.flush Resend.flush_fuel
flush-Leaves w p =
    flush_loop-Leaves w (suc (length p.retry.items)) 0 p p.retry.items refl (omega arith)
