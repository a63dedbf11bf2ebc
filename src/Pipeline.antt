-- ===== src/Pipeline.antt =====
-- crates/stmp2log/src/pipeline.rs: the notifications for a message, and the passes over the retry
-- queue. A call runs alone: what other tasks do between two of its steps is not modelled, and the
-- state and the settings that it loads stay the same during the call. What goes to the log file is
-- left out.
pub mod Intake
pub mod Stores
pub mod Added
pub mod Stream
pub mod Resend
pub mod Keeps
pub mod Flush
pub mod Limits
pub mod Cooldown
use stmp2log.Prelude.{
  ℕ, zero, suc, ◌+◌, ◌*◌, List, [], ◌∷◌, ◌++◌, Option, none, some, Bool, true, false, not, ◌&&◌,
  length, drop, keep, ltb, ◌-◌, leb, ◌==◌, if◌then◌else◌,
}
use mathlib.Core.List.{reverse}
use stmp2log.Prelude.Int.{ℤ}
use stmp2log.Prelude.Text.{Text, codes, is_empty, decimal}
use stmp2log.Store.Matcher.{Target, matcher_matches}
use stmp2log.Notify
use stmp2log.Push
use stmp2log.Retry
use stmp2log.Retry.{Pending, Queue}
use stmp2log.State
use stmp2log.State.{ChannelCfg, NotifyRule, Vars}

abbrev pub notify_log_cap : ℕ
notify_log_cap = 200

-- `Retry` of pipeline.rs: what became of an alert in the retry queue.
pub data Mark : Type 0 where
  queued resent dropped : Mark

pub record NotifyLog : Type 0 where
  pub at : ℤ
  pub rule : Text
  pub channel : Text
  pub kind : Text
  pub subject : Text
  pub ok : Bool
  pub error : Text
  pub attempts : ℕ
  pub took_ms : ℕ
  pub retry : Option Mark

-- What `push::send` returns: the text of the error and `retryable` of it.
pub data PushOutcome : Type 0 where
  pushed : PushOutcome
  push_failed : Text → Bool → PushOutcome

-- The fields that change. `turn` counts the calls of what is outside, which may answer each
-- call in another way.
pub record Pipe : Type 0 where
  pub cooldowns : List (ℕ × ℕ)
  pub notify_log : List NotifyLog
  pub retry : Queue
  pub turn : ℕ

-- What the code reads or calls and does not change: the state and the settings, the clocks, the
-- deliveries (`s2l_notify::deliver`) and the pushes with the milliseconds that they took, and
-- `log::fmt_local`. `link_base` is the result of the method of that name, `push_label` too.
pub record World : Type 0 where
  pub state : State.State
  pub retry_queue : ℕ
  pub link_base : Text
  pub push_label : Text
  pub lower : Text → Text
  pub now_ms : ℕ → ℤ
  pub instant : ℕ → ℕ
  pub deliver : ℕ → Notify.Channel → Notify.Payload → ℕ → Notify.Outcome
  pub push_send : ℕ → Push.Payload → ℕ × PushOutcome
  pub fmt_local : ℤ → Text

pub record NotifyJob : Type 0 where
  pub id : ℕ
  pub subject : Text
  pub from : Text
  pub from_name : Text
  pub from_user : Text
  pub from_domain : Text
  pub body : Text
  pub peer : Text
  pub group : Option ℕ
  pub auth_user : Text
  pub at : ℤ
  pub push : Option Push.Payload

unfoldable pub ticked : Pipe → Pipe
ticked p = record p { turn = suc p.turn }

unfoldable pub with_retry : Pipe → Queue → Pipe
with_retry p q = record p { retry = q }

unfoldable pub record_entry : Pipe → NotifyLog → Pipe
record_entry p e = record p {
  notify_log =
      (if leb notify_log_cap (length p.notify_log) then drop 1 p.notify_log else p.notify_log)
      ++ e ∷ [];
}

unfoldable pub notify_log : Pipe → List NotifyLog
notify_log p = reverse p.notify_log

unfoldable pub last_of : ℕ → List (ℕ × ℕ) → Option ℕ
last_of id [] = none
last_of id ((j, t) ∷ m) = if j == id then some t else last_of id m

unfoldable pub within : Option ℕ → ℕ → ℕ → Bool
within none now window = false
within (some last) now window = ltb (now - last) window

-- Times are in nanoseconds.
unfoldable pub take_cooldown : World → Pipe → ℕ → ℕ → Bool × Pipe
unfolding ticked last_of within
take_cooldown w p id secs =
    if secs == 0
    then (true, p)
    else if within (last_of id p.cooldowns) (w.instant p.turn) (secs * 1000000000)
    then (false, ticked p)
    else (
      true,
      record (ticked p) {
        cooldowns = (id, w.instant (suc p.turn)) ∷ keep (λ e. not (e.0 == id)) p.cooldowns;
      },
    )

unfoldable pub item_channel : World → Retry.Item → Text
item_channel w (Retry.notify n) = n.channel_name
item_channel w (Retry.push_item q) = w.push_label

unfoldable pub log_of : World → Pipe → Pending → Bool → Text → ℕ → Mark → NotifyLog
unfolding item_channel Retry.item_rule Retry.item_kind Retry.item_subject
log_of w p e ok error took_ms mark = record {
  at = w.now_ms p.turn;
  rule = Retry.item_rule e.item;
  channel = item_channel w e.item;
  kind = Retry.item_kind e.item;
  subject = Retry.item_subject e.item;
  ok = ok;
  error = error;
  attempts = e.attempts;
  took_ms = took_ms;
  retry = some mark;
}

-- The loop over what the queue evicted.
unfoldable pub record_dropped : World → Pipe → List Pending → Pipe
unfolding record_entry log_of ticked
record_dropped w p [] = p
record_dropped w p (e ∷ es) =
    record_dropped w (ticked (record_entry p (log_of w p e false e.error 0 dropped))) es

unfoldable pub enqueue : World → Pipe → Retry.Item → ℤ → ℕ → Text → Pipe
unfolding record_dropped with_retry
enqueue w p item at attempts error =
    let (q, evicted) = Retry.push p.retry item at attempts error w.retry_queue in
    record_dropped w (with_retry p q) evicted

unfoldable pub trim_retry : World → Pipe → ℕ → Pipe
unfolding record_dropped with_retry
trim_retry w p max =
    let (q, evicted) = Retry.trim p.retry max in record_dropped w (with_retry p q) evicted

unfoldable pub forward_done : World → NotifyJob → Push.Payload → Pipe → ℕ → PushOutcome → Pipe
unfolding enqueue record_entry with_retry ticked
forward_done w job payload p took pushed = with_retry p (Retry.recovered p.retry)
forward_done w job payload p took (push_failed err again) =
    let item = Retry.push_item (record { id = job.id; subject = job.subject; payload = payload }) in
    let kept = if again then enqueue w p item job.at 1 err else p in
    ticked (
      record_entry kept (record {
        at = w.now_ms kept.turn;
        rule = [];
        channel = w.push_label;
        kind = codes "push";
        subject = job.subject;
        ok = false;
        error = err;
        attempts = 1;
        took_ms = took;
        retry = some (if again then queued else dropped);
      }))

unfoldable pub forward : World → NotifyJob → Push.Payload → Pipe → Pipe
unfolding forward_done
forward w job payload p =
    let (took, r) = w.push_send p.turn payload in forward_done w job payload (ticked p) took r

unfoldable pub forward_job : World → NotifyJob → Option Push.Payload → Pipe → Pipe
unfolding forward
forward_job w job none p = p
forward_job w job (some payload) p = forward w job payload p

unfoldable pub queued_notify : NotifyJob → NotifyRule → Notify.Payload → ChannelCfg → Retry.Item
queued_notify job rule payload cfg = Retry.notify (record {
  channel = cfg.id;
  channel_name = cfg.name;
  kind = Notify.kind cfg.channel;
  rule = rule.name;
  subject = job.subject;
  payload = payload;
  email_to = rule.email_to;
})

-- What follows the delivery to one channel.
unfoldable pub notified :
    World → NotifyJob → NotifyRule → Notify.Payload → ChannelCfg → Notify.Outcome → Pipe → Pipe
unfolding enqueue with_retry record_entry ticked queued_notify
notified w job rule payload cfg out p =
    let kept =
      if out.ok
      then with_retry p (Retry.recovered p.retry)
      else if out.retryable
      then enqueue w p (queued_notify job rule payload cfg) job.at out.attempts out.error
      else p in
    ticked (
      record_entry kept (record {
        at = w.now_ms kept.turn;
        rule = rule.name;
        channel = cfg.name;
        kind = Notify.kind cfg.channel;
        subject = job.subject;
        ok = out.ok;
        error = out.error;
        attempts = out.attempts;
        took_ms = out.took_ms;
        retry = if out.ok then none else if out.retryable then some queued else none;
      }))

unfoldable pub notify_channel :
    World → NotifyJob → NotifyRule → Notify.Payload → Option ChannelCfg → Pipe → Pipe
unfolding notified ticked State.with_recipients
notify_channel w job rule payload none p = p
notify_channel w job rule payload (some cfg) p =
    if not cfg.enabled
    then p
    else notified w job rule payload cfg
        (w.deliver p.turn (State.with_recipients rule cfg.channel) payload 3) (ticked p)

unfoldable pub notify_channels :
    World → NotifyJob → NotifyRule → Notify.Payload → List ℕ → Pipe → Pipe
unfolding notify_channel State.channel_of
notify_channels w job rule payload [] p = p
notify_channels w job rule payload (cid ∷ cids) p =
    notify_channels w job rule payload cids
      (notify_channel w job rule payload (State.channel_of w.state cid) p)

unfoldable pub vars_of : World → NotifyJob → Vars
unfolding State.group_name
vars_of w job = record {
  subject = job.subject;
  from = job.from;
  from_name = job.from_name;
  from_user = job.from_user;
  from_domain = job.from_domain;
  body = job.body;
  time = w.fmt_local job.at;
  group = State.group_name w.state job.group;
  peer = job.peer;
}

unfoldable pub id_text : Option ℕ → Text
unfolding decimal
id_text none = []
id_text (some g) = decimal g

-- The subject of the rules' conditions: it has no recipients and no headers.
unfoldable pub target_of : NotifyJob → Target
unfolding id_text
target_of job = record {
  from = job.from;
  from_user = job.from_user;
  from_domain = job.from_domain;
  from_name = job.from_name;
  subject = job.subject;
  body = job.body;
  rcpt = [];
  peer_ip = job.peer;
  group = id_text job.group;
  auth_user = job.auth_user;
  headers = [];
}

unfoldable pub url_of : World → NotifyJob → Option Text
unfolding decimal is_empty
url_of w job =
    if not (job.id == 0) && not (is_empty w.link_base)
    then some (w.link_base ++ codes "/#/?id=" ++ decimal job.id)
    else none

unfoldable pub payload_of : World → NotifyJob → NotifyRule → Notify.Payload
unfolding vars_of url_of State.render
payload_of w job rule = record {
  title = State.render rule.title (vars_of w job);
  body = State.render rule.body (vars_of w job);
  url = url_of w job;
}

unfoldable pub notify_rule : World → NotifyJob → NotifyRule → Pipe → Pipe
unfolding target_of take_cooldown notify_channels payload_of
notify_rule w job rule p =
    if not rule.enabled
    then p
    else if not (matcher_matches w.lower rule.matcher (target_of job))
    then p
    else let (free, next) = take_cooldown w p rule.id rule.cooldown in
      if not free
      then next
      else notify_channels w job rule (payload_of w job rule) rule.channels next

unfoldable pub notify_rules : World → NotifyJob → List NotifyRule → Pipe → Pipe
unfolding notify_rule
notify_rules w job [] p = p
notify_rules w job (rule ∷ rules) p = notify_rules w job rules (notify_rule w job rule p)

unfoldable pub notify : World → NotifyJob → Pipe → Pipe
unfolding notify_rules forward_job
notify w job p = notify_rules w job w.state.rules (forward_job w job job.push p)
