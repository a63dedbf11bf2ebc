-- ===== src/Smtp/Moves/Rules.antt =====
-- One rule for each way to build an action of crates/s2l-smtp/src/session.rs.
use stmp2log.Prelude.{◌≡◌, refl, List, [], ◌∷◌, ◌++◌, ◌≢◌, Bool, true, false, arith, if◌then◌else◌}
use stmp2log.Prelude.Text.{Text}
use stmp2log.Smtp.{Peer, Config}
use stmp2log.Smtp.Io.{
  Env, Read, Session, Io, io_ok, io_error, out_of_fuel, M, ◌>>=◌, ◌>>◌, pure, throw_io, gets,
  modify, read_until, write_line, try_write, then_io, later_reads,
}
use stmp2log.Smtp.Moves.{
  Move, reads, writes, Reach, here, Reach-trans, Reach-IsLeft, IsLeft, one, Tame, TameAt,
}

module _ {env : Env} {cfg : Config} {peer : Peer} {tls_active : Bool} {all : List Read}
    {A : Type 0} where
  pub Tame-pure : (a : A) → Tame env cfg peer tls_active all (pure a)
  unfolding pure
  Tame-pure a = record { reach = λ s l. here; returns = λ s l e. cc }

  pub at :
      (m : M A) (s : Session)
      → Tame env cfg peer tls_active all m
      → TameAt env cfg peer tls_active all m s
  at m s k = record { reach = k.reach s; returns = k.returns s }

  pub Tame-throw : Tame env cfg peer tls_active all (throw_io {A = A})
  unfolding throw_io
  Tame-throw = record { reach = λ s l. here; returns = λ s l e. cc }

  pub Tame-gets : (f : Session → A) → Tame env cfg peer tls_active all (gets f)
  unfolding gets
  Tame-gets f = record { reach = λ s l. here; returns = λ s l e. cc }

  pub Tame-if :
      (b : Bool) {m n : M A}
      → Tame env cfg peer tls_active all m
      → Tame env cfg peer tls_active all n
      → Tame env cfg peer tls_active all (if b then m else n)
  Tame-if true km kn = km
  Tame-if false km kn = kn

abbrev unit_of : Io (Unit {0}) × Session → Session
unit_of p = p.1

later-front : (rs : List Read) → (front : List Read) × (rs ≡ front ++ later_reads rs)
later-front [] = ([], refl)
later-front (r ∷ rs) = (r ∷ [], refl)

module _ {env : Env} {cfg : Config} {peer : Peer} {tls_active : Bool} {all : List Read} where
  pub Tame-modify :
      (f : Session → Session)
      → ((s : Session) → Move env cfg peer tls_active all s (f s))
      → Tame env cfg peer tls_active all (modify f)
  unfolding modify
  Tame-modify f h = record {
    reach = λ s l. one env cfg peer tls_active all (h s);
    returns = λ s l e. cc;
  }

  pub Tame-read_until : Tame env cfg peer tls_active all read_until
  unfolding read_until
  Tame-read_until = record {
    reach = λ s l.
        let (front, e) = later-front s.input in
        one env cfg peer tls_active all (reads s front (later_reads s.input) e);
    returns = λ s l e. cc;
  }

  write-Reach :
      (s : Session) (line : Text) (b : Bool)
      → Reach env cfg peer tls_active all s (
          unit_of
            (if b then (io_ok tt, record s { output = s.output ++ line ∷ [] }) else (io_error, s)))
  write-Reach s line true = one env cfg peer tls_active all (writes s line)
  write-Reach s line false = here

  pub Tame-write_line : (line : Text) → Tame env cfg peer tls_active all (write_line env line)
  unfolding write_line
  Tame-write_line line = record {
    reach = λ s l. write-Reach s line (env.write_ok s.output);
    returns = λ s l e. ground arith;
  }

  pub Tame-try_write : (line : Text) → Tame env cfg peer tls_active all (try_write env line)
  unfolding try_write
  Tame-try_write line = record { reach = (Tame-write_line line).reach; returns = λ s l e. cc }

module _ {env : Env} {cfg : Config} {peer : Peer} {tls_active : Bool} {all : List Read}
    {A B : Type 0} where
  then_at :
      (r : Io A) (f : A → M B) (s t : Session)
      → Reach env cfg peer tls_active all s t
      → IsLeft all t
      → r ≢ out_of_fuel
      → ((a : A) → r ≡ io_ok a → TameAt env cfg peer tls_active all (f a) t)
      → Reach env cfg peer tls_active all s (then_io r f t).1 × ((then_io r f t).0 ≢ out_of_fuel)
  then_at (io_ok a) f s t c l n kf =
      (Reach-trans env cfg peer tls_active all c ((kf a refl).reach l), (kf a refl).returns l)
  then_at io_error f s t c l n kf = (c, λ e. cc)
  then_at out_of_fuel f s t c l n kf = absurd (n refl)

  bind_at :
      (m : M A) (f : A → M B) (s : Session)
      → IsLeft all s
      → TameAt env cfg peer tls_active all m s
      → ((a : A) → (m s).0 ≡ io_ok a → TameAt env cfg peer tls_active all (f a) (m s).1)
      → Reach env cfg peer tls_active all s (then_io (m s).0 f (m s).1).1
        × ((then_io (m s).0 f (m s).1).0 ≢ out_of_fuel)
  bind_at m f s l km kf =
      then_at (m s).0 f s (m s).1 (km.reach l)
        (Reach-IsLeft env cfg peer tls_active all (km.reach l) l) (km.returns l) kf

  pub TameAt-bind :
      (m : M A) (f : A → M B) (s : Session)
      → TameAt env cfg peer tls_active all m s
      → ((a : A) → (m s).0 ≡ io_ok a → TameAt env cfg peer tls_active all (f a) (m s).1)
      → TameAt env cfg peer tls_active all (m >>= f) s
  unfolding ◌>>=◌
  TameAt-bind m f s km kf = record {
    reach = λ l. (bind_at m f s l km kf).0;
    returns = λ l. (bind_at m f s l km kf).1;
  }

  -- The rest of the action may rely on what is known of the result.
  pub Tame-bind_with :
      (m : M A) (f : A → M B) (P : A → Type 0)
      → Tame env cfg peer tls_active all m
      → ((s : Session) → IsLeft all s → (a : A) → (m s).0 ≡ io_ok a → P a)
      → ((a : A) → P a → Tame env cfg peer tls_active all (f a))
      → Tame env cfg peer tls_active all (m >>= f)
  unfolding ◌>>=◌
  Tame-bind_with m f P km post kf = record {
    reach = λ s l. (bind_at m f s l (at m s km) (λ a e. at (f a) _ (kf a (post s l a e)))).0;
    returns = λ s l. (bind_at m f s l (at m s km) (λ a e. at (f a) _ (kf a (post s l a e)))).1;
  }

  pub Tame-bind :
      (m : M A) (f : A → M B)
      → Tame env cfg peer tls_active all m
      → ((a : A) → Tame env cfg peer tls_active all (f a))
      → Tame env cfg peer tls_active all (m >>= f)
  Tame-bind m f km kf = Tame-bind_with m f (λ a. Unit) km (λ s l a e. tt) (λ a u. kf a)

module _ {env : Env} {cfg : Config} {peer : Peer} {tls_active : Bool} {all : List Read}
    {A B : Type 0} where
  pub Tame-then :
      (m : M A) (k : M B)
      → Tame env cfg peer tls_active all m
      → Tame env cfg peer tls_active all k
      → Tame env cfg peer tls_active all (m >> k)
  unfolding ◌>>◌
  Tame-then m k km kk = Tame-bind m (λ _. k) km (λ _. kk)

pub ruleset tame_rules = (
  Tame-pure, Tame-throw, Tame-gets, Tame-if, Tame-read_until, Tame-write_line, Tame-try_write,
  Tame-bind, Tame-then,
)
