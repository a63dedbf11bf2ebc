-- ===== src/Smtp/Moves/Commands.antt =====
-- Every command of crates/s2l-smtp/src/session.rs is a sequence of moves.
use stmp2log.Prelude.{
  ℕ, ◌≡◌, ◌≢◌, refl, List, [], ◌∷◌, ◌++◌, Option, none, some, Bool, true, false, not, ◌&&◌, length,
  leb, arith, if◌then◌else◌,
}
use stmp2log.Prelude.Text.{Text, codes}
use stmp2log.Smtp.{Peer, Config, requires_auth, offer_starttls}
use stmp2log.Smtp.Io.{Env, Read, out_of_fuel, Session, M, write_line}
use stmp2log.Smtp.Session.{
  Step, go_on, stop, Command, ehlo, helo, starttls, auth, mail, data_cmd, rset, noop, vrfy, help,
  quit, blank, unknown, done, write_all, reply, on_ehlo, on_helo, on_starttls, on_auth, mail_with,
  rcpt_with, on_rcpt, on_rset, on_quit, dispatch, max_rcpt, is_mail_command, is_none, on_command,
  ehlo_lines,
}
use stmp2log.Smtp.Moves.{
  greets, resets, sender, recipient, Reach, Reach-trans, one, Tame, TameAt, IsArgument, IsLeft,
}
use stmp2log.Smtp.Moves.Rules.{
  Tame-modify, Tame-then, Tame-write_line, Tame-pure, Tame-if, Tame-bind, at,
}
use stmp2log.Smtp.Moves.Data.{on_data-Tame}
use stmp2log.Smtp.Moves.Auth.{handle_auth-Tame}

module _ (env : Env) (cfg : Config) (peer : Peer) (tls_active : Bool) (all : List Read) where
  abbrev IsTame : {A : Type 0} → M A → Type 0
  IsTame = Tame env cfg peer tls_active all

  abbrev Goes : Session → Session → Type 0
  Goes = Reach env cfg peer tls_active all

  reply-Tame : (line : Text) → IsTame (reply env cfg peer tls_active line)
  unfolding reply
  reply-Tame line = Tame-then _ _ (Tame-write_line line) (Tame-pure go_on)

  write_all-Tame : (ls : List Text) → IsTame (write_all env cfg peer tls_active ls)
  unfolding write_all
  write_all-Tame [] = Tame-pure tt
  write_all-Tame (l ∷ ls) = Tame-then _ _ (Tame-write_line l) (write_all-Tame ls)

  on_ehlo-Tame : (rest : List ℕ) → IsTame (on_ehlo env cfg peer tls_active rest)
  unfolding on_ehlo
  on_ehlo-Tame rest = Tame-then _ _ (Tame-modify _ (λ s. greets s rest)) (
      Tame-then _ _ (write_all-Tame (ehlo_lines cfg (offer_starttls cfg peer tls_active)))
        (Tame-pure go_on))

  on_helo-Tame : (rest : List ℕ) → IsTame (on_helo env cfg peer tls_active rest)
  unfolding on_helo
  on_helo-Tame rest = Tame-then _ _ (Tame-modify _ (λ s. greets s rest)) (reply-Tame _)

  on_starttls-Tame : IsTame (on_starttls env cfg peer tls_active)
  unfolding on_starttls
  on_starttls-Tame = Tame-if tls_active (reply-Tame _) (
      Tame-if (not (offer_starttls cfg peer tls_active)) (reply-Tame _)
        (Tame-then _ _ (Tame-write_line _) (Tame-pure _)))

  on_auth-Tame :
      (rest : List ℕ) → IsArgument env all rest → IsTame (on_auth env cfg peer tls_active rest)
  unfolding on_auth
  on_auth-Tame rest c =
      Tame-bind _ _ (handle_auth-Tame env cfg peer tls_active all rest c) (λ more. Tame-pure _)

  mail_with-Tame : (a : Option Text) → IsTame (mail_with env cfg peer tls_active a)
  unfolding mail_with
  mail_with-Tame none = reply-Tame _
  mail_with-Tame (some a) = Tame-then _ _ (Tame-modify _ (λ s. sender s a)) (reply-Tame _)

  rcpt_with-Tame :
      (a : Option Text) (b : Bool) (s : Session)
      → IsLeft all s
      → leb max_rcpt (length s.rcpt) ≡ b
      → Goes s (rcpt_with env cfg peer tls_active a b s).1
        × ((rcpt_with env cfg peer tls_active a b s).0 ≢ out_of_fuel)
  unfolding rcpt_with
  rcpt_with-Tame none b s l e = ((reply-Tame _).reach s l, (reply-Tame _).returns s l)
  rcpt_with-Tame (some a) true s l e = ((reply-Tame _).reach s l, (reply-Tame _).returns s l)
  rcpt_with-Tame (some a) false s l e =
      let t = record s { rcpt = s.rcpt ++ a ∷ [] } in
      (
        Reach-trans env cfg peer tls_active all
            (one env cfg peer tls_active all (recipient s a (ground arith)))
            ((reply-Tame _).reach t l),
        (reply-Tame _).returns t l,
      )

  on_rcpt-Tame : (rest : List ℕ) → IsTame (on_rcpt env cfg peer tls_active rest)
  unfolding on_rcpt
  on_rcpt-Tame rest = record {
    reach = λ s l. (rcpt_with-Tame _ _ s l refl).0;
    returns = λ s l. (rcpt_with-Tame _ _ s l refl).1;
  }

  on_rset-Tame : IsTame (on_rset env cfg peer tls_active)
  unfolding on_rset
  on_rset-Tame = Tame-then _ _ (Tame-modify _ resets) (reply-Tame _)

  on_quit-Tame : IsTame (on_quit env cfg peer tls_active)
  unfolding on_quit
  on_quit-Tame =
      Tame-then (write_line env (codes "221 2.0.0 " ++ cfg.hostname ++ codes " closing")) _
        (Tame-write_line _) (Tame-pure (stop done))

  abbrev IsTameAt' : M Step → Session → Type 0
  IsTameAt' = TameAt env cfg peer tls_active all

  dispatch-Tame :
      (c : Command) (rest : List ℕ) (s : Session)
      → (is_mail_command c && requires_auth cfg && is_none s.auth_user) ≡ false
      → IsArgument env all rest
      → TameAt env cfg peer tls_active all (dispatch env cfg peer tls_active c rest) s
  unfolding dispatch is_mail_command
  dispatch-Tame ehlo rest s ok c = at _ s (on_ehlo-Tame rest)
  dispatch-Tame helo rest s ok c = at _ s (on_helo-Tame rest)
  dispatch-Tame starttls rest s ok c = at _ s on_starttls-Tame
  dispatch-Tame auth rest s ok c = at _ s (on_auth-Tame rest c)
  dispatch-Tame mail rest s ok c = at _ s (mail_with-Tame _)
  dispatch-Tame Command.rcpt rest s ok c = at _ s (on_rcpt-Tame rest)
  dispatch-Tame data_cmd rest s ok c = on_data-Tame env cfg peer tls_active all s ok
  dispatch-Tame rset rest s ok c = at _ s on_rset-Tame
  dispatch-Tame noop rest s ok c = at _ s (reply-Tame _)
  dispatch-Tame vrfy rest s ok c = at _ s (reply-Tame _)
  dispatch-Tame help rest s ok c = at _ s (reply-Tame _)
  dispatch-Tame quit rest s ok c = at _ s on_quit-Tame
  dispatch-Tame blank rest s ok c = at _ s (Tame-pure go_on)
  dispatch-Tame (unknown verb) rest s ok c = at _ s (reply-Tame _)

  guarded :
      (b : Bool) (c : Command) (rest : List ℕ) (s : Session)
      → (is_mail_command c && requires_auth cfg && is_none s.auth_user) ≡ b
      → IsArgument env all rest
      → IsTameAt'
          (λ (t : Session).
            if b
            then reply env cfg peer tls_active (codes "530 5.7.0 authentication required") t
            else dispatch env cfg peer tls_active c rest t)
          s
  guarded true c rest s e arg =
      let r = reply-Tame (codes "530 5.7.0 authentication required") in
      record { reach = r.reach s; returns = r.returns s }
  guarded false c rest s e arg =
      let d = dispatch-Tame c rest s e arg in record { reach = d.reach; returns = d.returns }

  pub on_command-Tame :
      (c : Command) (rest : List ℕ)
      → IsArgument env all rest
      → IsTame (on_command env cfg peer tls_active c rest)
  unfolding on_command
  on_command-Tame c rest arg = record {
    reach = λ s. (guarded _ c rest s refl arg).reach;
    returns = λ s. (guarded _ c rest s refl arg).returns;
  }
