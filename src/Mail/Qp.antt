-- ===== src/Mail/Qp.antt =====
-- crates/s2l-mail/src/qp.rs: quoted-printable text is decoded. Whatever is not a proper escape stays as it is.
pub mod RoundTrip
use stmp2log.Prelude.{
  ℕ, zero, suc, ◌+◌, ◌*◌, ◌-◌, List, [], ◌∷◌, ◌++◌, Option, none, some, Bool, true, false, ◌&&◌,
  leb, ◌==◌, drop, length, if◌then◌else◌,
}
use stmp2log.Prelude.Text.{Text, starts_with}

unfoldable pub hex_digit : ℕ → Option ℕ
hex_digit c =
    if leb b'0' c && leb c b'9'
    then some (c - b'0')
    else if leb b'a' c && leb c b'f'
    then some (c - b'a' + 10)
    else if leb b'A' c && leb c b'F'
    then some (c - b'A' + 10)
    else none

unfoldable pub hexval : Option ℕ → Option ℕ
unfolding hex_digit
hexval none = none
hexval (some c) = hex_digit c

unfoldable pub first : List ℕ → Option ℕ
first [] = none
first (c ∷ s) = some c

-- The byte of two digits and how many more bytes were read for it.
unfoldable pub pair_of : Option ℕ → Option ℕ → List ℕ × ℕ
pair_of (some h) (some l) = ((h * 16 + l) ∷ [], 2)
pair_of (some h) none = (b'=' ∷ [], 0)
pair_of none l = (b'=' ∷ [], 0)

-- What follows an equals sign: a line break that is left out, or two digits.
unfoldable pub escape : List ℕ → List ℕ × ℕ
unfolding starts_with pair_of hexval first
escape s =
    if starts_with s (13 ∷ 10 ∷ [])
    then ([], 2)
    else if starts_with s (10 ∷ [])
    then ([], 1)
    else pair_of (hexval (first s)) (hexval (first (drop 1 s)))

-- One turn of the loop: what is put out, and how many more bytes were read than the first.
unfoldable pub step : Bool → ℕ → List ℕ → List ℕ × ℕ
unfolding escape
step underscore_is_space c s =
    if c == b'_' && underscore_is_space
    then (b' ' ∷ [], 0)
    else if c == b'='
    then escape s
    else (c ∷ [], 0)

unfoldable pub decode_loop : ℕ → Bool → List ℕ → List ℕ
unfolding step
decode_loop zero u s = []
decode_loop (suc fuel) u [] = []
decode_loop (suc fuel) u (c ∷ s) =
    let (out, more) = step u c s in out ++ decode_loop fuel u (drop more s)

-- Each turn reads a byte at least.
unfoldable pub decode : List ℕ → Bool → List ℕ
unfolding decode_loop
decode input underscore_is_space = decode_loop (length input) underscore_is_space input
