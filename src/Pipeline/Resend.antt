-- ===== src/Pipeline/Resend.antt =====
-- crates/stmp2log/src/pipeline.rs: `send_queued` and the pass over the retry queue, `flush`.
use stmp2log.Prelude.{
  ℕ, zero, suc, ◌+◌, [], ◌∷◌, Option, none, some, Bool, true, false, not, ◌&&◌, length, ◌==◌,
  if◌then◌else◌,
}
use stmp2log.Prelude.Text.{Text, codes}
use stmp2log.Notify
use stmp2log.Retry
use stmp2log.Retry.{Pending}
use stmp2log.State
use stmp2log.State.{ChannelCfg}
use stmp2log.Pipeline.{
  World, Pipe, PushOutcome, pushed, push_failed, Mark, resent, dropped, record_entry, log_of,
  ticked, with_retry,
}

-- What `send_queued` returns.
pub data Sending : Type 0 where
  went : ℕ → Sending
  later : Text → Sending
  give_up : Text → Sending

pub record Pass : Type 0 where
  pub sent : ℕ
  pub stalled : Bool

unfoldable pub with_item : Pending → Retry.Item → Pending
with_item e i = record e { item = i }

unfoldable pub judge_outcome : Notify.Outcome → Sending
judge_outcome out =
    if out.ok
    then went out.took_ms
    else if out.retryable
    then later out.error
    else give_up out.error

unfoldable pub judge_push : ℕ → PushOutcome → Sending
judge_push took pushed = went took
judge_push took (push_failed err again) = if again then later err else give_up err

unfoldable pub send_notify :
    World → Pipe → Pending → Retry.QueuedNotify → Option ChannelCfg → Pending × Sending
unfolding with_item judge_outcome State.apply_recipients
send_notify w p e n none = (e, give_up (codes "the channel was deleted"))
send_notify w p e n (some cfg) =
    if not cfg.enabled
    then (e, give_up (codes "the channel was disabled"))
    else let ch = State.apply_recipients cfg.channel n.email_to in
      (
        with_item e (Retry.notify (record n { channel_name = cfg.name; kind = Notify.kind ch })),
        judge_outcome (w.deliver p.turn ch n.payload 1),
      )

-- `push::resend` sets the time of the payload and sends it.
unfoldable pub send_push : World → Pipe → Pending → Retry.QueuedPush → Pending × Sending
unfolding with_item judge_push
send_push w p e q =
    let payload = record q.payload { ts = w.now_ms p.turn } in
    let (took, r) = w.push_send p.turn payload in
    (with_item e (Retry.push_item (record q { payload = payload })), judge_push took r)

unfoldable pub send_item : World → Pipe → Pending → Retry.Item → Pending × Sending
unfolding send_notify send_push State.channel_of
send_item w p e (Retry.notify n) = send_notify w p e n (State.channel_of w.state n.channel)
send_item w p e (Retry.push_item q) = send_push w p e q

unfoldable pub send_queued : World → Pipe → Pending → Pending × Sending
unfolding send_item
send_queued w p e = send_item w p e e.item

unfoldable pub tried : Pending → Pending
tried e = record e { attempts = e.attempts + 1 }

unfoldable pub with_error : Pending → Text → Pending
with_error e err = record e { error = err }

unfoldable pub settle : World → Pipe → Pending → Bool → Text → ℕ → Mark → Pipe
unfolding record_entry log_of ticked
settle w p e ok err took mark = ticked (record_entry p (log_of w p e ok err took mark))

-- What `flush` does with the result of `send_queued`; `go` is the rest of its loop.
unfoldable pub flush_next :
    World → ℕ → Pipe → Pending → Sending → (ℕ → Pipe → Option (Pass × Pipe)) → Option (Pass × Pipe)
unfolding settle with_retry with_error
flush_next w sent p e (went took) go = go (suc sent) (settle w p e true [] took resent)
flush_next w sent p e (later err) go = some (
  record { sent = sent; stalled = true },
  with_retry p (Retry.requeue p.retry (with_error e err)),
)
flush_next w sent p e (give_up err) go = go sent (settle w p e false err 0 dropped)

-- The loop of `flush`, with fuel: a turn that goes on has one entry less in the queue.
unfoldable pub flush_loop : World → ℕ → ℕ → Pipe → Option (Pass × Pipe)
unfolding send_queued flush_next with_retry ticked tried
flush_loop w zero sent p = none
flush_loop w (suc n) sent p = elim (p.retry.items) [
  | [] ↦ some (record { sent = sent; stalled = false }, p)
  | first ∷ rest ↦
      let taken = with_retry p (record p.retry { items = rest }) in
      let done = send_queued w taken (tried first) in
      flush_next w sent (ticked taken) done.0 done.1 (λ s q. flush_loop w n s q)
]

unfoldable pub flush_fuel : Pipe → ℕ
flush_fuel p = suc (length p.retry.items)

unfoldable pub flush : World → Pipe → Option (Pass × Pipe)
unfolding flush_loop flush_fuel
flush w p = flush_loop w (flush_fuel p) 0 p

-- The delay after a pass, in `run_retry`.
unfoldable pub delay_after : Pass → ℕ → ℕ
unfolding Retry.next_delay
delay_after pass delay =
    if pass.stalled && pass.sent == 0 then Retry.next_delay delay else Retry.first_delay
