-- ===== src/Smtp/Io.antt =====
-- What a session of crates/s2l-smtp/src/session.rs works on: its state, the connection and the
-- queue of accepted mail; and the actions that the handlers are made of.
use stmp2log.Prelude.{
  ℕ, List, [], ◌∷◌, ◌++◌, Option, none, Bool, false, length, ltb, if◌then◌else◌, take,
}
use stmp2log.Prelude.Text.{Text}
use stmp2log.Smtp.{Delivered}

-- What one read up to a line feed gives: the bytes, none of them at the end of the stream; the
-- time limit; or an error of the connection.
pub data Read : Type 0 where
  bytes : List ℕ → Read
  timed_out failed : Read

-- `try_send` on the bounded channel.
pub data Sent : Type 0 where
  accepted full closed : Sent

-- What the code calls and does not implement. Where a call can give a new result each time, it is a
-- function of what has happened so far.
pub record Env : Type 0 where
  pub lossy : List ℕ → Text
  pub as_bytes : Text → List ℕ
  pub decode64 : Text → Option (List ℕ)
  pub encode64 : Text → Text
  pub random_hex : List Text → Text
  pub millis : List Text → Text
  pub ip_text : Text → Text
  pub write_ok : List Text → Bool
  pub try_send : List Text → List Delivered → Sent

-- The fields of `State`, then the input that is still to come, the lines written and the messages
-- handed over.
pub record Session : Type 0 where
  pub greeted : Bool
  pub peer_name : Text
  pub mail_from : Option Text
  pub rcpt : List Text
  pub auth_user : Option Text
  pub delivered : ℕ
  pub input : List Read
  pub output : List Text
  pub sent : List Delivered

-- `State::default()` on a new connection.
abbrev pub fresh : List Read → Session
fresh input = record {
  greeted = false;
  peer_name = [];
  mail_from = none;
  rcpt = [];
  auth_user = none;
  delivered = 0;
  input = input;
  output = [];
  sent = [];
}

-- `std::io::Result`, with the fuel of the loops as a third case.
pub data Io {ℓ} (A : Type ℓ) : Type ℓ where
  io_ok : A → Io A
  io_error out_of_fuel : Io A

abbrev pub M : Type 0 → Type 0
M A = Session → Io A × Session

abbrev pub then_io : {A B : Type 0} → Io A → (A → M B) → M B
then_io (io_ok a) f s = f a s
then_io io_error f s = (io_error, s)
then_io out_of_fuel f s = (out_of_fuel, s)

infixl 5 ◌>>=◌ ◌>>◌
unfoldable pub ◌>>=◌ : {A B : Type 0} → M A → (A → M B) → M B
◌>>=◌ m f s = let (r, s') = m s in then_io r f s'

unfoldable pub ◌>>◌ : {A B : Type 0} → M A → M B → M B
unfolding ◌>>=◌
◌>>◌ m k = m >>= λ _. k

unfoldable pub pure : {A : Type 0} → A → M A
pure a s = (io_ok a, s)

unfoldable pub throw_io : {A : Type 0} → M A
throw_io s = (io_error, s)

unfoldable pub no_fuel : {A : Type 0} → M A
no_fuel s = (out_of_fuel, s)

unfoldable pub gets : {A : Type 0} → (Session → A) → M A
gets f s = (io_ok (f s), s)

-- Assignments to the fields of `State`; the connection is not theirs to change.
unfoldable pub modify : (Session → Session) → M (Unit {0})
modify f s = (io_ok tt, f s)

-- One read: a stream that has no more events is at its end.
abbrev pub next_read : List Read → Read
next_read [] = bytes []
next_read (r ∷ rs) = r

abbrev pub later_reads : List Read → List Read
later_reads [] = []
later_reads (r ∷ rs) = rs

unfoldable pub read_until : M Read
read_until s = (io_ok (next_read s.input), record s { input = later_reads s.input })

-- `write_line`: the line is written whole, or the connection has failed.
unfoldable pub write_line : Env → Text → M (Unit {0})
write_line env line s =
    if env.write_ok s.output
    then (io_ok tt, record s { output = s.output ++ line ∷ [] })
    else (io_error, s)

-- `let _ = write_line(…)`
unfoldable pub try_write : Env → Text → M (Unit {0})
unfolding write_line
try_write env line s = (io_ok tt, (write_line env line s).1)

-- `buf.truncate(MAX_LINE)`
unfoldable pub truncate : List ℕ → List ℕ
truncate line = if ltb 2048 (length line) then take 2048 line else line
