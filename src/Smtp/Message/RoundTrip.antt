-- ===== src/Smtp/Message/RoundTrip.antt =====
-- A message that a client sends by the rules of SMTP is read back whole.
use stmp2log.Prelude.{
  ℕ, ◌+◌, ◌≤◌, ◌≡◌, refl, ap, ◌∙◌, leb, Bool-cases, inl, inr, append-nil, List, [], ◌∷◌, ◌++◌, Bool,
  true, false, length, arith, length-append, append_assoc, ltb, ◌==◌, if◌then◌else◌,
}
use native.Mathlib.Nat.{zero-add}
use stmp2log.Prelude.Text.{Text, codes, text_eq}
use stmp2log.Smtp.Line.{strip_last, trim_eol}
use stmp2log.Smtp.Io.{Read, bytes, io_ok, Session}
use stmp2log.Smtp.Message.{message, too_big_body, data_loop, read_data, unstuff, crlf, finish}

-- What RFC 5321 asks of the client: a dot in front of a line that begins with one.
abbrev pub stuff : Text → Text
stuff [] = []
stuff (c ∷ s) = if c == b'.' then b'.' ∷ c ∷ s else c ∷ s

-- The lines of a message on the wire, the final dot, and what comes behind it.
abbrev pub wire : List Text → List Read → List Read
wire [] after = bytes (codes "." ++ crlf) ∷ after
wire (l ∷ ls) after = bytes (stuff l ++ crlf) ∷ wire ls after

-- The lines with their ends.
abbrev pub joined : List Text → List ℕ
joined [] = []
joined (l ∷ ls) = (l ++ crlf) ++ joined ls

strip_last-append : (b : ℕ) (s : Text) → strip_last b (s ++ b ∷ []) ≡ s
unfolding strip_last
strip_last-append b [] = ground arith
strip_last-append b (c ∷ []) = ap (λ r. c ∷ r) (strip_last-append b [])
strip_last-append b (c ∷ d ∷ s) = ap (λ r. c ∷ r) (strip_last-append b (d ∷ s))

trim_eol-crlf : (s : Text) → trim_eol (s ++ crlf) ≡ s
unfolding trim_eol
trim_eol-crlf s =
    rw (← append_assoc s (13 ∷ []) (10 ∷ []), strip_last-append 10 (s ++ 13 ∷ []))
      (strip_last-append 13 s)

-- A line in which the client doubled a leading dot is read as it was, and never ends the message.
stuffed : (l : Text) → (unstuff (stuff l) ≡ l) × (text_eq (stuff l) (codes ".") ≡ false)
unfolding unstuff text_eq
stuffed [] = (refl, refl)
stuffed (c ∷ []) = ground arith
stuffed (c ∷ d ∷ s) = ground arith

-- One line of the loop.
line_step :
    (max_size : ℕ) (l : Text) (rs : List Read) (out : List ℕ) (big : Bool)
    → data_loop max_size (bytes (stuff l ++ crlf) ∷ rs) out big ≡ (
        let more = if ltb max_size (length out + length l + 2) then true else big in
        data_loop max_size rs (if more then out else (out ++ l) ++ crlf) more)
unfolding data_loop
line_step max_size l rs out big =
    let n : (length (stuff l ++ crlf) == 0) ≡ false =
      ground (arith, length-append {0} (stuff l) crlf) in
    rw (n, trim_eol-crlf (stuff l), (stuffed l).1, (stuffed l).0)

last_step :
    (max_size : ℕ) (rs : List Read) (out : List ℕ) (big : Bool)
    → data_loop max_size (bytes (codes "." ++ crlf) ∷ rs) out big ≡ (io_ok (finish big out), rs)
unfolding data_loop
last_step max_size rs out big = refl

data_loop-big :
    (max_size : ℕ) (ls : List Text) (rs : List Read) (out : List ℕ)
    → data_loop max_size (wire ls rs) out true ≡ (io_ok too_big_body, rs)
data_loop-big max_size [] rs out = last_step max_size rs out true
data_loop-big max_size (l ∷ ls) rs out =
    line_step max_size l (wire ls rs) out true
    ∙ elim (Bool-cases (ltb max_size (length out + length l + 2))) [
      | inl e ↦ rw e (data_loop-big max_size ls rs out)
      | inr e ↦ rw e (data_loop-big max_size ls rs out)
    ]

joined-length :
    (out l : List ℕ) (ls : List Text)
    → length out + length (joined (l ∷ ls)) ≡ length ((out ++ l) ++ crlf) + length (joined ls)
joined-length out l ls = omega (
  arith,
  length-append {0} (l ++ crlf) (joined ls),
  length-append {0} l crlf,
  length-append {0} (out ++ l) crlf,
  length-append {0} out l,
)

joined-append :
    (out l : List ℕ) (ls : List Text) → out ++ joined (l ∷ ls) ≡ ((out ++ l) ++ crlf) ++ joined ls
joined-append out l ls = simp append_assoc

data_loop-wire :
    (max_size : ℕ) (ls : List Text) (rs : List Read) (out : List ℕ)
    → length out ≤ max_size
    → data_loop max_size (wire ls rs) out false ≡ (
      io_ok (
          if leb (length out + length (joined ls)) max_size
          then message (out ++ joined ls)
          else too_big_body),
      rs,
    )
data_loop-wire max_size [] rs out h = last_step max_size rs out false ∙ rw append-nil (ground arith)
data_loop-wire max_size (l ∷ ls) rs out h =
    line_step max_size l (wire ls rs) out false
    ∙ elim (Bool-cases (ltb max_size (length out + length l + 2))) [
      | inl over ↦
          let e : leb (length out + length (joined (l ∷ ls))) max_size ≡ false = ground (
            arith,
            joined-length out l ls,
            length-append {0} (out ++ l) crlf,
            length-append {0} out l,
          ) in
          rw (over, e) (data_loop-big max_size ls rs out)
      | inr fits ↦
          rw (fits, joined-length out l ls, joined-append out l ls)
            (data_loop-wire max_size ls rs ((out ++ l) ++ crlf)
              (ground (arith, length-append {0} (out ++ l) crlf, length-append {0} out l)))
    ]

-- A message of any lines, sent by the rules of SMTP, is read back with its lines and their ends,
-- exactly when it is no longer than the limit, and is refused as too big otherwise; in both cases
-- what comes behind the final dot is left for the next command.
pub read_data-wire :
    (max_size : ℕ) (ls : List Text) (rs : List Read) (s : Session)
    → s.input ≡ wire ls rs
    → read_data max_size s ≡ (
      io_ok (if leb (length (joined ls)) max_size then message (joined ls) else too_big_body),
      record s { input = rs },
    )
unfolding read_data
read_data-wire max_size ls rs s e =
    rw (e, data_loop-wire max_size ls rs [] (omega arith), zero-add) refl
