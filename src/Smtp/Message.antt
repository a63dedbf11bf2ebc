-- ===== src/Smtp/Message.antt =====
-- `read_data` of crates/s2l-smtp/src/session.rs: the message behind DATA.
pub mod RoundTrip
use stmp2log.Prelude.{
  ℕ, zero, suc, ◌+◌, List, [], ◌∷◌, ◌++◌, Bool, true, false, ◌&&◌, length, ltb, ◌==◌, if◌then◌else◌,
}
use stmp2log.Prelude.Text.{Text, text_eq, starts_with, codes}
use stmp2log.Smtp.Line.{trim_eol}
use stmp2log.Smtp.Io.{Read, bytes, timed_out, failed, Io, io_ok, io_error, M, Session}

pub data Body : Type 0 where
  message : List ℕ → Body
  too_big_body : Body

abbrev pub crlf : Text
crlf = 13 ∷ 10 ∷ []

-- A leading dot that was doubled by the client.
unfoldable pub unstuff : Text → Text
unstuff [] = []
unstuff (c ∷ []) = c ∷ []
unstuff (c ∷ d ∷ s) = if c == b'.' && d == b'.' then d ∷ s else c ∷ d ∷ s

abbrev pub finish : Bool → List ℕ → Body
finish true out = too_big_body
finish false out = message out

-- The loop over the lines, and the reads that it leaves. A timeout reads as the end of the stream.
unfoldable pub data_loop : ℕ → List Read → List ℕ → Bool → Io Body × List Read
unfolding trim_eol unstuff text_eq
data_loop max_size [] out too_big = (io_ok (finish too_big out), [])
data_loop max_size (timed_out ∷ rs) out too_big = (io_ok (finish too_big out), rs)
data_loop max_size (failed ∷ rs) out too_big = (io_error, rs)
data_loop max_size (bytes line ∷ rs) out too_big =
    let body = unstuff (trim_eol line) in
    let big = if ltb max_size (length out + length body + 2) then true else too_big in
    let rest = data_loop max_size rs (if big then out else (out ++ body) ++ crlf) big in
    if length line == 0
    then (io_ok (finish too_big out), rs)
    else if text_eq (trim_eol line) (codes ".")
    then (io_ok (finish too_big out), rs)
    else rest

unfoldable pub read_data : ℕ → M Body
unfolding data_loop
read_data max_size s =
    let (r, rs) = data_loop max_size s.input [] false in (r, record s { input = rs })
