-- ===== src/Smtp/Line.antt =====
-- The line parsers of crates/s2l-smtp/src/session.rs.
use mathlib.Core.List.{map}
use stmp2log.Prelude.{
  ℕ, suc, ◌-◌, List, [], ◌∷◌, Option, none, some, take, drop, length, ◌==◌, if◌then◌else◌,
}
use stmp2log.Prelude.Text.{
  Text, ascii_upper, is_ascii_whitespace, is_whitespace, trim_start, str_trim, starts_with,
  find_char, split_whitespace,
}

-- `strip_suffix` of one byte.
unfoldable pub strip_last : ℕ → Text → Text
strip_last b [] = []
strip_last b (c ∷ []) = if c == b then [] else c ∷ []
strip_last b (c ∷ d ∷ s) = c ∷ strip_last b (d ∷ s)

unfoldable pub trim_eol : Text → Text
unfolding strip_last
trim_eol line = strip_last 13 (strip_last 10 line)

-- The bytes before the first ASCII white space, and from there on.
unfoldable pub verb_bytes : Text → Text
unfolding is_ascii_whitespace
verb_bytes [] = []
verb_bytes (c ∷ s) = let rest = c ∷ verb_bytes s in if is_ascii_whitespace c then [] else rest

unfoldable pub after_verb : Text → Text
unfolding is_ascii_whitespace
after_verb [] = []
after_verb (c ∷ s) = let rest = after_verb s in if is_ascii_whitespace c then c ∷ s else rest

abbrev first_or_empty : List Text → Text
first_or_empty [] = []
first_or_empty (w ∷ ws) = w

-- `String::from_utf8_lossy`, of the standard library.
module _ (lossy : List ℕ → Text) where
  unfoldable pub split_verb : List ℕ → Text × List ℕ
  unfolding verb_bytes after_verb ascii_upper
  split_verb line = (map ascii_upper (lossy (verb_bytes line)), after_verb line)

  abbrev inside_angle : Text → ℕ → Option ℕ → Option Text
  inside_angle after open_at none = none
  inside_angle after open_at (some close) =
      some (str_trim (take (close - 1) (drop (suc open_at) after)))

  abbrev address_in : Text → Option ℕ → Option Text
  address_in after none = some (str_trim (first_or_empty (split_whitespace after)))
  address_in after (some open_at) = inside_angle after open_at (find_char b'>' (drop open_at after))

  unfoldable pub param_after : List ℕ → Text → Option Text
  unfolding ascii_upper starts_with str_trim trim_start is_whitespace find_char split_whitespace
  param_after rest prefix =
      let t = trim_start is_whitespace (lossy rest) in
      if starts_with (map ascii_upper t) (map ascii_upper (lossy prefix))
      then (let after = str_trim (drop (length prefix) t) in
          address_in after (find_char b'<' after))
      else none
