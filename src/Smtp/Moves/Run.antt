-- ===== src/Smtp/Moves/Run.antt =====
-- A whole session of crates/s2l-smtp/src/session.rs: it ends, and it is a sequence of moves.
use stmp2log.Prelude.{
  ℕ, zero, suc, ◌+◌, ◌≤◌, ◌<◌, ◌≡◌, ◌≢◌, refl, sym, ap, ◌∙◌, subst, append_assoc, ◌++◌,
  length-append, if◌then◌else◌, List, [], ◌∷◌, Bool, true, false, length, ◌==◌, arith,
}
use stmp2log.Prelude.Text.{codes}
use stmp2log.Smtp.{Peer, Config}
use stmp2log.Smtp.Line.{trim_eol, split_verb}
use stmp2log.Smtp.Io.{
  Env, Read, bytes, timed_out, failed, Io, io_ok, io_error, out_of_fuel, Session, M, truncate,
  try_write, then_io, pure, read_until, later_reads, next_read, no_fuel,
}
use stmp2log.Smtp.Session.{
  End, done, Step, go_on, stop, command_of, on_line, on_read, round, loop, run, greeting,
  greet_state, next_or,
}
use stmp2log.Smtp.Moves.{
  Move, reads, writes, greets, resets, sender, recipient, logs_in, hands_over, Reach, here, next,
  Reach-trans, Reach-IsLeft, Tame, TameAt, Came, IsLeft,
}
use stmp2log.Smtp.Moves.Rules.{
  Tame-then, Tame-write_line, Tame-try_write, Tame-pure, Tame-throw, Tame-bind_with,
  Tame-read_until, TameAt-bind, at,
}
use stmp2log.Smtp.Moves.Auth.{next_read-Came}
use stmp2log.Smtp.Moves.Commands.{on_command-Tame}

module _ (env : Env) (cfg : Config) (peer : Peer) (tls_active : Bool) (all : List Read) where
  abbrev IsTame : {A : Type 0} → M A → Type 0
  IsTame = Tame env cfg peer tls_active all

  on_line-Tame : (line : List ℕ) → Came all line → IsTame (on_line env cfg peer tls_active line)
  unfolding on_line
  on_line-Tame line came =
      on_command-Tame env cfg peer tls_active all
        (command_of (split_verb env.lossy (trim_eol (truncate line))).0)
        (split_verb env.lossy (trim_eol (truncate line))).1 (line, came, refl)

  abbrev IsNext : Read → Type 0
  IsNext r = (line : List ℕ) → r ≡ bytes line → (length line == 0) ≡ false → Came all line

  if-Tame :
      (b : Bool) (m n : M Step) → IsTame m → (b ≡ false → IsTame n) → IsTame (if b then m else n)
  if-Tame true m n km kn = km
  if-Tame false m n km kn = kn refl

  on_read-Tame : (r : Read) → IsNext r → IsTame (on_read env cfg peer tls_active r)
  unfolding on_read
  on_read-Tame timed_out came =
      Tame-then (try_write env (codes "421 4.4.2 idle timeout, closing")) _ (Tame-try_write _)
        (Tame-pure _)
  on_read-Tame failed came = Tame-throw
  on_read-Tame (bytes line) came =
      if-Tame (length line == 0) (pure (stop done)) (on_line env cfg peer tls_active line)
        (Tame-pure (stop done)) (λ more. on_line-Tame line (came line refl more))

  read_until-IsNext :
      (s : Session) → IsLeft all s → (r : Read) → (read_until s).0 ≡ io_ok r → IsNext r
  unfolding read_until
  read_until-IsNext s (front, left) r e =
      let same : next_read s.input ≡ r = cc in
      subst IsNext same (next_read-Came all front s.input left)

  round-Tame : IsTame (round env cfg peer tls_active)
  unfolding round
  round-Tame =
      Tame-bind_with read_until (on_read env cfg peer tls_active) IsNext Tame-read_until
        read_until-IsNext on_read-Tame

  -- No move gives input back.
  Move-input :
      {s t : Session} → Move env cfg peer tls_active all s t → length t.input ≤ length s.input
  unfolding greet_state
  Move-input (reads s front rs h) = omega (arith, ap length h, length-append front rs)
  Move-input (writes s line) = omega arith
  Move-input (greets s rest) = omega arith
  Move-input (resets s) = omega arith
  Move-input (sender s a) = omega arith
  Move-input (recipient s a h) = omega arith
  Move-input (logs_in s c o h) = omega arith
  Move-input (hands_over s out h k) = omega arith

  Reach-input :
      {s t : Session} → Reach env cfg peer tls_active all s t → length t.input ≤ length s.input
  Reach-input here = omega arith
  Reach-input (next r m) = omega (arith, Reach-input r, Move-input m)

  round_from :
      (front l : List Read) (s : Session)
      → all ≡ front ++ l
      → (on_read env cfg peer tls_active (next_read l) (record s { input = later_reads l })).0
        ≡ io_ok go_on
      → length
          (on_read env cfg peer tls_active
            (next_read l)
            (record s { input = later_reads l })).1.input
        < length l
  unfolding on_read
  round_from front [] s left e = cc
  round_from front (r ∷ rs) s left e =
      let next_left : all ≡ (front ++ r ∷ []) ++ rs = left ∙ sym (append_assoc front (r ∷ []) rs) in
      omega (
        arith,
        Reach-input (
            (on_read-Tame r (next_read-Came all front (r ∷ rs) left)).reach
              (record s { input = rs }) (front ++ r ∷ [], next_left)),
      )

  -- A round that goes on has taken a read.
  round-input :
      (s : Session)
      → IsLeft all s
      → (round env cfg peer tls_active s).0 ≡ io_ok go_on
      → length (round env cfg peer tls_active s).1.input < length s.input
  unfolding round
  round-input s (front, left) e = round_from front s.input s left e

  abbrev rest_of : M End → Io Step → Session → Io End × Session
  rest_of again r t = then_io r (next_or env cfg peer tls_active again) t

  rest-returns :
      (again : M End) (r : Io Step) (t : Session)
      → r ≢ out_of_fuel
      → (r ≡ io_ok go_on → (again t).0 ≢ out_of_fuel)
      → (rest_of again r t).0 ≢ out_of_fuel
  unfolding pure
  rest-returns again (io_ok go_on) t n k = k refl
  rest-returns again (io_ok (stop e)) t n k = λ q. cc
  rest-returns again io_error t n k = λ q. cc
  rest-returns again out_of_fuel t n k = λ q. n refl

  rest-Reach :
      (again : M End) (r : Io Step) (s t : Session)
      → Reach env cfg peer tls_active all s t
      → Reach env cfg peer tls_active all t (again t).1
      → Reach env cfg peer tls_active all s (rest_of again r t).1
  unfolding pure
  rest-Reach again (io_ok go_on) s t a b = Reach-trans env cfg peer tls_active all a b
  rest-Reach again (io_ok (stop e)) s t a b = a
  rest-Reach again io_error s t a b = a
  rest-Reach again out_of_fuel s t a b = a

  loop-returns :
      (f : ℕ) (s : Session)
      → IsLeft all s
      → length s.input < f
      → (loop env cfg peer tls_active f s).0 ≢ out_of_fuel
  unfolding loop
  loop-returns zero s l h = absurd (omega arith)
  loop-returns (suc f) s l h =
      rest-returns (loop env cfg peer tls_active f) (round env cfg peer tls_active s).0
        (round env cfg peer tls_active s).1 (round-Tame.returns s l)
        λ e.
          loop-returns f (round env cfg peer tls_active s).1
            (Reach-IsLeft env cfg peer tls_active all (round-Tame.reach s l) l)
            (omega (arith, round-input s l e))

  loop-Reach :
      (f : ℕ) (s : Session)
      → IsLeft all s
      → Reach env cfg peer tls_active all s (loop env cfg peer tls_active f s).1
  unfolding loop no_fuel
  loop-Reach zero s l = here
  loop-Reach (suc f) s l =
      rest-Reach (loop env cfg peer tls_active f) (round env cfg peer tls_active s).0 s
        (round env cfg peer tls_active s).1 (round-Tame.reach s l)
        (loop-Reach f (round env cfg peer tls_active s).1
          (Reach-IsLeft env cfg peer tls_active all (round-Tame.reach s l) l))

  greeting-Tame : (greet : Bool) → IsTame (greeting env cfg peer tls_active greet)
  unfolding greeting
  greeting-Tame true = Tame-write_line _
  greeting-Tame false = Tame-pure tt

  loop-at :
      (f : ℕ) (s : Session)
      → length s.input < f
      → TameAt env cfg peer tls_active all (loop env cfg peer tls_active f) s
  loop-at f s h = record { reach = λ l. loop-Reach f s l; returns = λ l. loop-returns f s l h }

  run-at :
      (greet : Bool) (s : Session)
      → IsLeft all s
      → TameAt env cfg peer tls_active all (run env cfg peer tls_active greet) s
  unfolding run
  run-at greet s l =
      let t = (greeting env cfg peer tls_active greet s).1 in
      let b =
        TameAt-bind (greeting env cfg peer tls_active greet)
          (λ _. loop env cfg peer tls_active (length s.input + 2)) s (at _ s (greeting-Tame greet))
          λ u e.
            loop-at (length s.input + 2) t
              (omega (arith, Reach-input ((greeting-Tame greet).reach s l))) in
      record { reach = b.reach; returns = b.returns }

  -- Whatever a session reads, what it does is a sequence of the moves of the specification.
  pub run-Reach :
      (greet : Bool) (s : Session)
      → IsLeft all s
      → Reach env cfg peer tls_active all s (run env cfg peer tls_active greet s).1
  run-Reach greet s l = (run-at greet s l).reach l

-- Every session ends, whatever it reads: by a command, by the end of the stream, by the time limit
-- or by an error of the connection, and the fuel of the loop is enough.
pub run-returns :
    (env : Env) (cfg : Config) (peer : Peer) (tls_active : Bool) (greet : Bool) (s : Session)
    → (run env cfg peer tls_active greet s).0 ≢ out_of_fuel
run-returns env cfg peer tls_active greet s =
    (run-at env cfg peer tls_active s.input greet s ([], refl)).returns ([], refl)
