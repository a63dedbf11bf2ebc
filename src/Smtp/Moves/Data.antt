-- ===== src/Smtp/Moves/Data.antt =====
-- DATA of crates/s2l-smtp/src/session.rs as a sequence of moves, from a state in which the policy
-- admits mail.
use stmp2log.Prelude.{
  ℕ, ◌+◌, ◌≤◌, ◌≡◌, ◌≢◌, refl, ap, ◌∙◌, List, [], ◌∷◌, ◌++◌, Bool, true, false, ◌&&◌, length, ltb,
  ◌==◌, arith, Bool-cases, inl, inr, if◌then◌else◌, length-append,
}
use stmp2log.Prelude.Text.{Text, codes, text_eq, decimal}
use stmp2log.Smtp.{Peer, Config, requires_auth}
use stmp2log.Smtp.Line.{trim_eol}
use stmp2log.Smtp.Message.{Body, message, too_big_body, data_loop, read_data, unstuff, crlf, finish}
use stmp2log.Smtp.Io.{
  Env, Read, bytes, timed_out, failed, Io, io_ok, out_of_fuel, Sent, accepted, full, closed,
  Session, M, write_line, pure, modify,
}
use stmp2log.Smtp.Session.{go_on, reset_envelope, message_of, send_with, deliver, on_data, is_none}
use stmp2log.Smtp.Moves.{reads, resets, hands_over, Reach-trans, one, Tame, TameAt}
use stmp2log.Smtp.Moves.Rules.{Tame-modify, Tame-then, Tame-write_line, Tame-pure, TameAt-bind, at}

-- The loop over a message takes its input from the front, keeps the size limit and always ends.
record DataResult (max_size : ℕ) (input : List Read) (r : Io Body × List Read) : Type 0 where
  left : (front : List Read) × (input ≡ front ++ r.1)
  ends : r.0 ≢ out_of_fuel
  fits : (out : List ℕ) → r.0 ≡ io_ok (message out) → length out ≤ max_size

finish-fits :
    (max_size : ℕ) (big : Bool) (out final : List ℕ)
    → io_ok (finish big out) ≡ io_ok (message final)
    → length out ≤ max_size
    → length final ≤ max_size
finish-fits max_size true out final e h = cc
finish-fits max_size false out final e h = ground arith

ended :
    (max_size : ℕ) (input rs : List Read) (out : List ℕ) (big : Bool)
    → length out ≤ max_size
    → (front : List Read) × (input ≡ front ++ rs)
    → DataResult max_size input (io_ok (finish big out), rs)
ended max_size input rs out big h l = record {
  left = l;
  ends = λ e. cc;
  fits = λ final e. finish-fits max_size big out final e h;
}

longer :
    (max_size : ℕ) (r : Read) (rs : List Read) (res : Io Body × List Read)
    → DataResult max_size rs res
    → DataResult max_size (r ∷ rs) res
longer max_size r rs res d = record {
  left = let (front, e) = d.left in (r ∷ front, ap (λ x. r ∷ x) e);
  ends = d.ends;
  fits = d.fits;
}

taken-fits :
    (max_size : ℕ) (out body : List ℕ) (big : Bool)
    → length out ≤ max_size
    → length (
        if (if ltb max_size (length out + length body + 2) then true else big)
        then out
        else (out ++ body) ++ crlf)
      ≤ max_size
taken-fits max_size out body big h =
    ground (arith, length-append {0} (out ++ body) crlf, length-append {0} out body)

data_loop-result :
    (max_size : ℕ) (rs : List Read) (out : List ℕ) (big : Bool)
    → length out ≤ max_size
    → DataResult max_size rs (data_loop max_size rs out big)
unfolding data_loop
data_loop-result max_size [] out big h = ended max_size [] [] out big h ([], refl)
data_loop-result max_size (timed_out ∷ rs) out big h =
    ended max_size (timed_out ∷ rs) rs out big h (timed_out ∷ [], refl)
data_loop-result max_size (failed ∷ rs) out big h = record {
  left = (failed ∷ [], refl);
  ends = λ e. cc;
  fits = λ final e. cc;
}
data_loop-result max_size (bytes line ∷ rs) out big h = elim (Bool-cases (length line == 0)) [
  | inl stream_end ↦
      rw stream_end (ended max_size (bytes line ∷ rs) rs out big h (bytes line ∷ [], refl))
  | inr more ↦ elim (Bool-cases (text_eq (trim_eol line) (codes "."))) [
    | inl dot ↦
        rw (more, dot) (ended max_size (bytes line ∷ rs) rs out big h (bytes line ∷ [], refl))
    | inr text ↦
        rw (more, text)
          (longer max_size (bytes line) rs _ (
            data_loop-result max_size rs _ _
              (taken-fits max_size out (unstuff (trim_eol line)) big h)))
  ]
]

module _ (env : Env) (cfg : Config) (peer : Peer) (tls_active : Bool) (all : List Read) where
  abbrev IsTame : {A : Type 0} → M A → Type 0
  IsTame = Tame env cfg peer tls_active all

  abbrev IsTameAt : {A : Type 0} → M A → Session → Type 0
  IsTameAt = TameAt env cfg peer tls_active all

  -- What the policy asks for before a mail command.
  abbrev pub IsAdmitted : Session → Type 0
  IsAdmitted s = (requires_auth cfg && is_none s.auth_user) ≡ false

  send_with-Tame :
      (r : Sent) (out : List ℕ) (s : Session)
      → length out ≤ cfg.max_size
      → IsAdmitted s
      → IsTameAt (send_with env cfg peer tls_active r (message_of env cfg peer tls_active out s)) s
  unfolding send_with
  send_with-Tame accepted out s fits ok =
      let t = record s {
        delivered = s.delivered + 1;
        sent = s.sent ++ message_of env cfg peer tls_active out s ∷ [];
      } in
      let w : IsTame (write_line env (codes "250 2.0.0 message accepted")) = Tame-write_line _ in
      record {
        reach = λ l.
            Reach-trans env cfg peer tls_active all
              (one env cfg peer tls_active all (hands_over s out fits ok)) (w.reach t l);
        returns = λ l. w.returns t l;
      }
  send_with-Tame full out s fits ok = at _ s (Tame-write_line _)
  send_with-Tame closed out s fits ok = at _ s (Tame-write_line _)

  deliver-Tame :
      (b : Body) (s : Session)
      → ((out : List ℕ) → b ≡ message out → length out ≤ cfg.max_size)
      → IsAdmitted s
      → IsTameAt (deliver env cfg peer tls_active b) s
  unfolding deliver
  deliver-Tame (message out) s fits ok =
      let d = send_with-Tame (env.try_send s.output s.sent) out s (fits out refl) ok in
      record { reach = d.reach; returns = d.returns }
  deliver-Tame too_big_body s fits ok =
      let w = at _ s (
        Tame-write_line {env = env} {cfg = cfg} {peer = peer} {tls_active = tls_active} {all = all}
          (codes "552 5.3.4 message exceeds the "
            ++ decimal cfg.max_size
            ++ codes " byte limit")) in
      record { reach = w.reach; returns = w.returns }

  read_data-Tame : (s : Session) → IsTameAt (read_data cfg.max_size) s
  unfolding read_data
  read_data-Tame s =
      let d = data_loop-result cfg.max_size s.input [] false (omega arith) in
      record {
        reach = λ l. let (front, e) = d.left in one env cfg peer tls_active all (reads s front _ e);
        returns = λ l. d.ends;
      }

  read_data-fits :
      (s : Session) (b : Body)
      → (read_data cfg.max_size s).0 ≡ io_ok b
      → (out : List ℕ) → b ≡ message out
      → length out ≤ cfg.max_size
  unfolding read_data
  read_data-fits s b e out m =
      (data_loop-result cfg.max_size s.input [] false (omega arith)).fits out (e ∙ ap io_ok m)

  write_line-auth : (line : Text) (s : Session) → (write_line env line s).1.auth_user ≡ s.auth_user
  unfolding write_line
  write_line-auth line s = ground arith

  read_data-auth : (n : ℕ) (s : Session) → (read_data n s).1.auth_user ≡ s.auth_user
  unfolding read_data
  read_data-auth n s = refl

  pub on_data-Tame : (s : Session) → IsAdmitted s → IsTameAt (on_data env cfg peer tls_active) s
  unfolding on_data
  on_data-Tame s ok =
      TameAt-bind (write_line env (codes "354 end data with <CR><LF>.<CR><LF>")) _ s
        (at _ s (Tame-write_line _))
        λ u e.
          let s1 = (write_line env (codes "354 end data with <CR><LF>.<CR><LF>") s).1 in
          TameAt-bind (read_data cfg.max_size) _ s1 (read_data-Tame s1) λ b eb.
            let s2 = (read_data cfg.max_size s1).1 in
            TameAt-bind (deliver env cfg peer tls_active b) _ s2
              (deliver-Tame b s2 (read_data-fits s1 b eb) (
                rw
                  (
                    read_data-auth cfg.max_size s1,
                    write_line-auth (codes "354 end data with <CR><LF>.<CR><LF>") s,
                  )
                  ok))
              λ v ev. at _ _ (
                Tame-then (modify reset_envelope) (pure go_on) (Tame-modify _ resets)
                  (Tame-pure go_on))
