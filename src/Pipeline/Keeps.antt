-- ===== src/Pipeline/Keeps.antt =====
-- crates/stmp2log/src/pipeline.rs: the log of notifications stays within its limit, and the retry
-- queue sorted.
use stmp2log.Prelude.{
  ℕ, ◌≤◌, ◌<◌, ◌≡◌, List, [], ◌∷◌, ◌++◌, Option, none, some, true, false, length, drop, leb,
  length-append, length-drop, arith, Bool-cases, inl, inr,
}
use stmp2log.Prelude.Int.{ℤ}
use stmp2log.Prelude.Text.{Text}
use stmp2log.Notify
use stmp2log.Push
use stmp2log.Retry
use stmp2log.Retry.{Pending}
use stmp2log.Retry.Order.{IsSorted}
use stmp2log.Retry.Contents.{push-IsSorted, trim-IsSorted}
use stmp2log.State
use stmp2log.Store.Matcher.{matcher_matches}
use stmp2log.Pipeline
use stmp2log.Pipeline.{World, Pipe, NotifyLog, NotifyJob}

-- The log has at most 200 entries, and the waiting alerts stand in the order of their times.
unfoldable pub IsGood : Pipe → Type 0
IsGood p = (length p.notify_log ≤ Pipeline.notify_log_cap) × IsSorted p.retry.items

sorted : (p : Pipe) → IsGood p → IsSorted p.retry.items
unfolding IsGood
sorted p g = g.1

bound :
    (es : List NotifyLog) (e : NotifyLog)
    → length es ≤ Pipeline.notify_log_cap
    → leb Pipeline.notify_log_cap (length es) ≡ false
    → length (es ++ e ∷ []) ≤ Pipeline.notify_log_cap
bound es e l h =
    let s : length es < Pipeline.notify_log_cap = ground arith in
    omega (arith, length-append {0} es (e ∷ []))

pub record_entry-IsGood : (p : Pipe) (e : NotifyLog) → IsGood p → IsGood (Pipeline.record_entry p e)
unfolding IsGood Pipeline.record_entry
record_entry-IsGood p e (l, s) =
    elim (Bool-cases (leb Pipeline.notify_log_cap (length p.notify_log))) [
      | inl h ↦ rw h (
        omega (
          arith,
          length-append {0} (drop 1 p.notify_log) (e ∷ []),
          length-drop {0} 1 p.notify_log,
        ),
        s,
      )
      | inr h ↦ rw h (bound p.notify_log e l h, s)
    ]

turned : (p : Pipe) → IsGood p → IsGood (Pipeline.ticked p)
unfolding IsGood Pipeline.ticked
turned p g = g

requeued :
    (p : Pipe) (q : Retry.Queue) → IsSorted q.items → IsGood p → IsGood (Pipeline.with_retry p q)
unfolding IsGood Pipeline.with_retry
requeued p q s (l, _) = (l, s)

recovered-IsSorted : (q : Retry.Queue) → IsSorted q.items → IsSorted (Retry.recovered q).items
unfolding Retry.recovered
recovered-IsSorted q s = elim (Bool-cases (Retry.is_idle q)) [ inl h ↦ rw h s | inr h ↦ rw h s ]

record_dropped-IsGood :
    (w : World) (p : Pipe) (es : List Pending) → IsGood p → IsGood (Pipeline.record_dropped w p es)
unfolding Pipeline.record_dropped
record_dropped-IsGood w p [] g = g
record_dropped-IsGood w p (e ∷ es) g =
    let entry = Pipeline.log_of w p e false e.error 0 Pipeline.Mark.dropped in
    let next = Pipeline.record_entry p entry in
    record_dropped-IsGood w (Pipeline.ticked next) es (turned next (record_entry-IsGood p entry g))

enqueue-IsGood :
    (w : World) (p : Pipe) (item : Retry.Item) (at : ℤ) (attempts : ℕ) (error : Text)
    → IsGood p
    → IsGood (Pipeline.enqueue w p item at attempts error)
unfolding Pipeline.enqueue
enqueue-IsGood w p item at attempts error g =
    let r = Retry.push p.retry item at attempts error w.retry_queue in
    record_dropped-IsGood w (Pipeline.with_retry p r.0) r.1 (
      requeued p r.0 ((push-IsSorted p.retry item at attempts error w.retry_queue (sorted p g)).1)
        g)

trim_retry-IsGood :
    (w : World) (p : Pipe) (max : ℕ) → IsGood p → IsGood (Pipeline.trim_retry w p max)
unfolding Pipeline.trim_retry
trim_retry-IsGood w p max g =
    let r = Retry.trim p.retry max in
    record_dropped-IsGood w (Pipeline.with_retry p r.0) r.1
      (requeued p r.0 (trim-IsSorted p.retry max (sorted p g)) g)

take_cooldown-IsGood :
    (w : World) (p : Pipe) (id secs : ℕ)
    → IsGood p
    → IsGood ((Pipeline.take_cooldown w p id secs).1)
unfolding IsGood Pipeline.take_cooldown
take_cooldown-IsGood w p id secs g = ground arith

-- One more entry in the log, after the calls that it needed.
pub logged-IsGood :
    (p : Pipe) (e : NotifyLog) → IsGood p → IsGood (Pipeline.ticked (Pipeline.record_entry p e))
logged-IsGood p e g = turned (Pipeline.record_entry p e) (record_entry-IsGood p e g)

recovered-IsGood : (p : Pipe) → IsGood p → IsGood (Pipeline.with_retry p (Retry.recovered p.retry))
recovered-IsGood p g =
    requeued p (Retry.recovered p.retry) (recovered-IsSorted p.retry (sorted p g)) g

forward_done-IsGood :
    (w : World) (job : NotifyJob) (payload : Push.Payload) (p : Pipe) (took : ℕ)
    (r : Pipeline.PushOutcome)
    → IsGood p
    → IsGood (Pipeline.forward_done w job payload p took r)
unfolding Pipeline.forward_done
forward_done-IsGood w job payload p took Pipeline.pushed g = recovered-IsGood p g
forward_done-IsGood w job payload p took (Pipeline.push_failed err true) g =
    let item = Retry.push_item (record { id = job.id; subject = job.subject; payload = payload }) in
    logged-IsGood (Pipeline.enqueue w p item job.at 1 err) _
      (enqueue-IsGood w p item job.at 1 err g)
forward_done-IsGood w job payload p took (Pipeline.push_failed err false) g = logged-IsGood p _ g

forward_job-IsGood :
    (w : World) (job : NotifyJob) (payload : Option Push.Payload) (p : Pipe)
    → IsGood p
    → IsGood (Pipeline.forward_job w job payload p)
unfolding Pipeline.forward_job Pipeline.forward
forward_job-IsGood w job none p g = g
forward_job-IsGood w job (some payload) p g =
    let r = w.push_send p.turn payload in
    forward_done-IsGood w job payload (Pipeline.ticked p) r.0 r.1 (turned p g)

module _ (w : World) (job : NotifyJob) (rule : State.NotifyRule) (payload : Notify.Payload) where
  notified-IsGood :
      (cfg : State.ChannelCfg) (out : Notify.Outcome) (p : Pipe)
      → IsGood p
      → IsGood (Pipeline.notified w job rule payload cfg out p)
  unfolding Pipeline.notified
  notified-IsGood cfg out p g = elim (Bool-cases out.ok) [
    | inl h ↦
        rw h
          (logged-IsGood (Pipeline.with_retry p (Retry.recovered p.retry)) _ (recovered-IsGood p g))
    | inr h ↦ rw h (elim (Bool-cases out.retryable) [
      | inl k ↦ rw k (
          logged-IsGood
            (Pipeline.enqueue w p (Pipeline.queued_notify job rule payload cfg) job.at out.attempts
              out.error)
            _
            (enqueue-IsGood w p (Pipeline.queued_notify job rule payload cfg) job.at out.attempts
              out.error g))
      | inr k ↦ rw k (logged-IsGood p _ g)
    ])
  ]

  notify_channel-IsGood :
      (o : Option State.ChannelCfg) (p : Pipe)
      → IsGood p
      → IsGood (Pipeline.notify_channel w job rule payload o p)
  unfolding Pipeline.notify_channel
  notify_channel-IsGood none p g = g
  notify_channel-IsGood (some cfg) p g = elim (Bool-cases cfg.enabled) [
    | inr h ↦ rw h g
    | inl h ↦ rw h (
        notified-IsGood cfg (w.deliver p.turn (State.with_recipients rule cfg.channel) payload 3)
          (Pipeline.ticked p) (turned p g))
  ]

  notify_channels-IsGood :
      (cids : List ℕ) (p : Pipe)
      → IsGood p
      → IsGood (Pipeline.notify_channels w job rule payload cids p)
  unfolding Pipeline.notify_channels
  notify_channels-IsGood [] p g = g
  notify_channels-IsGood (cid ∷ cids) p g =
      let o = State.channel_of w.state cid in
      notify_channels-IsGood cids (Pipeline.notify_channel w job rule payload o p)
        (notify_channel-IsGood o p g)

notify_rule-IsGood :
    (w : World) (job : NotifyJob) (rule : State.NotifyRule) (p : Pipe)
    → IsGood p
    → IsGood (Pipeline.notify_rule w job rule p)
unfolding Pipeline.notify_rule
notify_rule-IsGood w job rule p g =
    let next = (Pipeline.take_cooldown w p rule.id rule.cooldown).1 in
    let n : IsGood next = take_cooldown-IsGood w p rule.id rule.cooldown g in
    elim (Bool-cases rule.enabled) [
      | inr h ↦ rw h g
      | inl h ↦
          rw h (elim (Bool-cases (matcher_matches w.lower rule.matcher (Pipeline.target_of job))) [
            | inr m ↦ rw m g
            | inl m ↦
                rw m (elim (Bool-cases ((Pipeline.take_cooldown w p rule.id rule.cooldown).0)) [
                  | inr c ↦ rw c n
                  | inl c ↦ rw c (
                      notify_channels-IsGood w job rule (Pipeline.payload_of w job rule)
                        rule.channels next n)
                ])
          ])
    ]

notify_rules-IsGood :
    (w : World) (job : NotifyJob) (rules : List State.NotifyRule) (p : Pipe)
    → IsGood p
    → IsGood (Pipeline.notify_rules w job rules p)
unfolding Pipeline.notify_rules
notify_rules-IsGood w job [] p g = g
notify_rules-IsGood w job (rule ∷ rules) p g =
    notify_rules-IsGood w job rules (Pipeline.notify_rule w job rule p)
      (notify_rule-IsGood w job rule p g)

-- The notifications for a message that start with the log within its limit and a sorted retry queue
-- leave them so.
pub notify-IsGood :
    (w : World) (job : NotifyJob) (p : Pipe) → IsGood p → IsGood (Pipeline.notify w job p)
unfolding Pipeline.notify
notify-IsGood w job p g =
    notify_rules-IsGood w job w.state.rules (Pipeline.forward_job w job job.push p)
      (forward_job-IsGood w job job.push p g)
