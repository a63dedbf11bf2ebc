-- ===== src/Smtp/Session.antt =====
-- The command loop `run` of crates/s2l-smtp/src/session.rs.
use stmp2log.Prelude.{
  ℕ, zero, suc, ◌+◌, List, [], ◌∷◌, ◌++◌, Option, none, some, Bool, true, false, not, ◌&&◌, ◌||◌,
  length, leb, ◌==◌, if◌then◌else◌,
}
use stmp2log.Prelude.Text.{Text, codes, text_eq, is_empty, str_trim, decimal}
use stmp2log.Smtp.{Peer, Config, Delivered, offer_starttls, requires_auth, checks_password}
use stmp2log.Smtp.Line.{trim_eol, split_verb, param_after}
use stmp2log.Smtp.Message.{Body, message, too_big_body, read_data}
use stmp2log.Smtp.Auth.{handle_auth}
use stmp2log.Smtp.Io.{
  Env, Read, bytes, timed_out, failed, Sent, accepted, full, closed, Session, M, ◌>>=◌, ◌>>◌, pure,
  throw_io, no_fuel, modify, read_until, write_line, try_write, truncate,
}

pub data End : Type 0 where
  done start_tls : End

-- What a round of the loop leaves: the next round, or the end of the session.
pub data Step : Type 0 where
  go_on : Step
  stop : End → Step

-- The commands, in the order in which the code compares their names.
pub data Command : Type 0 where
  ehlo helo starttls auth mail rcpt data_cmd rset noop vrfy help quit blank : Command
  unknown : Text → Command

unfoldable pub command_of : Text → Command
unfolding text_eq is_empty
command_of verb =
    if text_eq verb (codes "EHLO")
    then ehlo
    else if text_eq verb (codes "HELO")
    then helo
    else if text_eq verb (codes "STARTTLS")
    then starttls
    else if text_eq verb (codes "AUTH")
    then auth
    else if text_eq verb (codes "MAIL")
    then mail
    else if text_eq verb (codes "RCPT")
    then Command.rcpt
    else if text_eq verb (codes "DATA")
    then data_cmd
    else if text_eq verb (codes "RSET")
    then rset
    else if text_eq verb (codes "NOOP")
    then noop
    else if text_eq verb (codes "VRFY") || text_eq verb (codes "EXPN")
    then vrfy
    else if text_eq verb (codes "HELP")
    then help
    else if text_eq verb (codes "QUIT")
    then quit
    else if is_empty verb
    then blank
    else unknown verb

unfoldable pub auth_line : Config → Text
auth_line cfg =
    if checks_password cfg.auth then codes "AUTH LOGIN PLAIN" else codes "AUTH LOGIN PLAIN CRAM-MD5"

unfoldable pub capabilities : Config → Bool → List Text
unfolding auth_line decimal
capabilities cfg offer =
    (codes "SIZE " ++ decimal cfg.max_size)
    ∷ codes "8BITMIME"
    ∷ codes "SMTPUTF8"
    ∷ codes "PIPELINING"
    ∷ codes "ENHANCEDSTATUSCODES"
    ∷ auth_line cfg
    ∷ (if offer then codes "STARTTLS" ∷ [] else [])

-- The last line has a space behind the code, the lines before it a hyphen.
unfoldable pub reply_lines : List Text → List Text
reply_lines [] = []
reply_lines (c ∷ []) = (codes "250 " ++ c) ∷ []
reply_lines (c ∷ d ∷ cs) = (codes "250-" ++ c) ∷ reply_lines (d ∷ cs)

unfoldable pub ehlo_lines : Config → Bool → List Text
unfolding capabilities reply_lines
ehlo_lines cfg offer = (codes "250-" ++ cfg.hostname) ∷ reply_lines (capabilities cfg offer)

unfoldable pub reset_envelope : Session → Session
reset_envelope s = record s { mail_from = none; rcpt = [] }

abbrev pub max_rcpt : ℕ
max_rcpt = 100

abbrev pub is_none : Option Text → Bool
is_none none = true
is_none (some u) = false

-- Mail commands wait for a login where the policy asks for one.
unfoldable pub is_mail_command : Command → Bool
is_mail_command mail = true
is_mail_command Command.rcpt = true
is_mail_command data_cmd = true
is_mail_command _ = false

unfoldable pub greet_state : Env → List ℕ → Session → Session
unfolding reset_envelope
greet_state env rest s = record (reset_envelope s) {
  greeted = true;
  peer_name = str_trim (env.lossy rest);
}

module _ (env : Env) (cfg : Config) (peer : Peer) (tls_active : Bool) where
  unfoldable pub write_all : List Text → M (Unit {0})
  unfolding write_line ◌>>=◌ ◌>>◌ pure
  write_all [] = pure tt
  write_all (l ∷ ls) = do write_line env l; write_all ls

  unfoldable pub reply : Text → M Step
  unfolding write_line ◌>>=◌ ◌>>◌ pure
  reply line = do write_line env line; pure go_on

  unfoldable pub on_ehlo : List ℕ → M Step
  unfolding write_all greet_state modify ◌>>=◌ ◌>>◌ pure
  on_ehlo rest = do
    modify (greet_state env rest)
    write_all (ehlo_lines cfg (offer_starttls cfg peer tls_active))
    pure go_on

  unfoldable pub on_helo : List ℕ → M Step
  unfolding reply greet_state modify ◌>>◌
  on_helo rest = do modify (greet_state env rest); reply (codes "250 " ++ cfg.hostname)

  unfoldable pub on_starttls : M Step
  unfolding reply write_line ◌>>◌ pure
  on_starttls =
      if tls_active
      then reply (codes "503 5.5.1 TLS is already active")
      else if not (offer_starttls cfg peer tls_active)
      then reply (codes "454 4.7.0 TLS is not available")
      else (do write_line env (codes "220 2.0.0 ready to start TLS"); pure (stop start_tls))

  abbrev after_auth : Bool → Step
  after_auth true = go_on
  after_auth false = stop done

  unfoldable pub on_auth : List ℕ → M Step
  unfolding handle_auth ◌>>=◌ pure
  on_auth rest = do more ← handle_auth env cfg rest; pure (after_auth more)

  unfoldable pub mail_with : Option Text → M Step
  unfolding reply modify ◌>>◌
  mail_with (some addr) = do
    modify (λ s. record s { mail_from = some addr; rcpt = [] })
    reply (codes "250 2.1.0 sender ok")
  mail_with none = reply (codes "501 5.5.4 syntax: MAIL FROM:<address>")

  unfoldable pub on_mail : List ℕ → M Step
  unfolding mail_with param_after
  on_mail rest = mail_with (param_after env.lossy rest (codes "FROM:"))

  unfoldable pub rcpt_with : Option Text → Bool → M Step
  unfolding reply modify ◌>>◌
  rcpt_with (some addr) true = reply (codes "452 4.5.3 too many recipients")
  rcpt_with (some addr) false = do
    modify (λ s. record s { rcpt = s.rcpt ++ addr ∷ [] })
    reply (codes "250 2.1.5 recipient ok")
  rcpt_with none b = reply (codes "501 5.5.4 syntax: RCPT TO:<address>")

  unfoldable pub on_rcpt : List ℕ → M Step
  unfolding rcpt_with param_after
  on_rcpt rest s =
      rcpt_with (param_after env.lossy rest (codes "TO:")) (leb max_rcpt (length s.rcpt)) s

  abbrev or_unknown : Option Text → Text
  or_unknown (some a) = a
  or_unknown none = codes "unknown@" ++ env.ip_text peer.ip

  abbrev pub or_postmaster : List Text → List Text
  or_postmaster [] = (codes "postmaster@" ++ cfg.hostname) ∷ []
  or_postmaster (r ∷ rs) = r ∷ rs

  unfoldable pub message_of : List ℕ → Session → Delivered
  message_of out s = record {
    envelope_from = or_unknown s.mail_from;
    rcpt = or_postmaster s.rcpt;
    peer = peer;
    bytes = out;
    size = length out;
    tls = tls_active;
    auth_user = s.auth_user;
  }

  unfoldable pub send_with : Sent → Delivered → M (Unit {0})
  unfolding write_line modify ◌>>◌
  send_with accepted msg = do
    modify (λ s. record s { delivered = s.delivered + 1; sent = s.sent ++ msg ∷ [] })
    write_line env (codes "250 2.0.0 message accepted")
  send_with full msg = write_line env (codes "451 4.3.1 mail queue is full, try again later")
  send_with closed msg = write_line env (codes "421 4.3.2 service shutting down")

  unfoldable pub deliver : Body → M (Unit {0})
  unfolding send_with message_of write_line decimal
  deliver (message out) s = send_with (env.try_send s.output s.sent) (message_of out s) s
  deliver too_big_body s =
      write_line env
        (codes "552 5.3.4 message exceeds the " ++ decimal cfg.max_size ++ codes " byte limit") s

  unfoldable pub on_data : M Step
  unfolding deliver read_data reset_envelope write_line modify ◌>>=◌ ◌>>◌ pure
  on_data = do
    write_line env (codes "354 end data with <CR><LF>.<CR><LF>")
    body ← read_data cfg.max_size
    deliver body
    modify reset_envelope
    pure go_on

  unfoldable pub on_rset : M Step
  unfolding reply reset_envelope modify ◌>>◌
  on_rset = do modify reset_envelope; reply (codes "250 2.0.0 reset")

  unfoldable pub on_quit : M Step
  unfolding write_line ◌>>◌ pure
  on_quit = do
    write_line env (codes "221 2.0.0 " ++ cfg.hostname ++ codes " closing")
    pure (stop done)

  unfoldable pub dispatch : Command → List ℕ → M Step
  unfolding on_ehlo on_helo on_starttls on_auth on_mail on_rcpt on_data on_rset on_quit reply pure
  dispatch ehlo rest = on_ehlo rest
  dispatch helo rest = on_helo rest
  dispatch starttls rest = on_starttls
  dispatch auth rest = on_auth rest
  dispatch mail rest = on_mail rest
  dispatch Command.rcpt rest = on_rcpt rest
  dispatch data_cmd rest = on_data
  dispatch rset rest = on_rset
  dispatch noop rest = reply (codes "250 2.0.0 ok")
  dispatch vrfy rest = reply (codes "252 2.5.2 cannot verify, will accept anyway")
  dispatch help rest =
      reply (codes "214 2.0.0 EHLO HELO MAIL RCPT DATA RSET NOOP AUTH STARTTLS QUIT")
  dispatch quit rest = on_quit
  dispatch blank rest = pure go_on
  dispatch (unknown verb) rest = reply (codes "500 5.5.2 unknown command " ++ verb)

  unfoldable pub on_command : Command → List ℕ → M Step
  unfolding dispatch is_mail_command reply
  on_command c rest s =
      if is_mail_command c && requires_auth cfg && is_none s.auth_user
      then reply (codes "530 5.7.0 authentication required") s
      else dispatch c rest s

  unfoldable pub on_line : List ℕ → M Step
  unfolding on_command command_of split_verb trim_eol truncate
  on_line line =
      let (verb, rest) = split_verb env.lossy (trim_eol (truncate line)) in
      on_command (command_of verb) rest

  unfoldable pub on_read : Read → M Step
  unfolding on_line try_write ◌>>◌ pure throw_io
  on_read timed_out = do try_write env (codes "421 4.4.2 idle timeout, closing"); pure (stop done)
  on_read failed = throw_io
  on_read (bytes line) = if length line == 0 then pure (stop done) else on_line line

  unfoldable pub round : M Step
  unfolding on_read read_until ◌>>=◌
  round = do r ← read_until; on_read r

  abbrev pub next_or : M End → Step → M End
  next_or again go_on = again
  next_or again (stop e) = pure e

  unfoldable pub loop : ℕ → M End
  unfolding round ◌>>=◌ no_fuel pure
  loop zero = no_fuel
  loop (suc f) = do step ← round; next_or (loop f) step

  -- One read at most is left when the input has ended, so its length and two rounds are enough.
  abbrev pub fuel_for : Session → ℕ
  fuel_for s = length s.input + 2

  unfoldable pub greeting : Bool → M (Unit {0})
  unfolding write_line pure
  greeting true = write_line env (codes "220 " ++ cfg.hostname ++ codes " ESMTP stmp2log ready")
  greeting false = pure tt

  unfoldable pub run : Bool → M End
  unfolding loop greeting ◌>>◌
  run greet s = (do greeting greet; loop (fuel_for s)) s
