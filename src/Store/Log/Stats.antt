-- ===== src/Store/Log/Stats.antt =====
-- crates/s2l-store/src/lib.rs: the counts of the messages that are shown. The order of texts is that of their
-- characters.
use stmp2log.Prelude.{
  ℕ, zero, suc, ◌+◌, ◌*◌, ◌/◌, min, List, [], ◌∷◌, map, Option, none, some, Bool, true, false, ◌&&◌,
  length, take, ltb, if◌then◌else◌,
}
use stmp2log.Prelude.Int.{ℤ, pos, leb_ℤ, ◌-ℤ◌, pos_part}
use stmp2log.Prelude.Text.{Text, codes, decimal}
use stmp2log.Store.Record.{MetaRec}
use stmp2log.Store.Segments
use stmp2log.Store.Segments.{Files}
use stmp2log.Store.Log.{Inner}

pub record Stats : Type 0 where
  pub total : ℕ
  pub disk_bytes : ℕ
  pub oldest : Option ℤ
  pub newest : Option ℤ
  pub by_group : List (Text × ℕ)
  pub top_senders : List (Text × ℕ)
  pub last_24h : List ℕ

-- The order of the keys of a `BTreeMap`.
unfoldable pub text_ltb : Text → Text → Bool
text_ltb [] [] = false
text_ltb [] (d ∷ t) = true
text_ltb (c ∷ s) [] = false
text_ltb (c ∷ s) (d ∷ t) =
    let rest = text_ltb s t in if ltb c d then true else if ltb d c then false else rest

-- `*entry(key).or_default() += 1`
unfoldable pub count_in : Text → List (Text × ℕ) → List (Text × ℕ)
unfolding text_ltb
count_in k [] = (k, 1) ∷ []
count_in k ((j, n) ∷ m) =
    let rest = count_in k m in
    if text_ltb k j
    then (k, 1) ∷ (j, n) ∷ m
    else if text_ltb j k
    then (j, n) ∷ rest
    else (j, n + 1) ∷ m

unfoldable pub group_key : Option ℕ → Text
unfolding decimal
group_key (some g) = decimal g
group_key none = codes "none"

unfoldable pub count_keys : List Text → List (Text × ℕ) → List (Text × ℕ)
unfolding count_in
count_keys [] m = m
count_keys (k ∷ ks) m = count_keys ks (count_in k m)

-- Which of two senders comes first: the one of more messages.
unfoldable pub more_often : Text × ℕ → Text × ℕ → Bool
unfolding text_ltb
more_often (k, n) (j, m) = if ltb m n then true else if ltb n m then false else text_ltb k j

unfoldable pub insert_often : Text × ℕ → List (Text × ℕ) → List (Text × ℕ)
unfolding more_often
insert_often e [] = e ∷ []
insert_often e (x ∷ xs) =
    let rest = insert_often e xs in if more_often x e then x ∷ rest else e ∷ x ∷ xs

unfoldable pub sort_often : List (Text × ℕ) → List (Text × ℕ)
unfolding insert_often
sort_often [] = []
sort_often (e ∷ es) = insert_often e (sort_often es)

unfoldable pub add_at : ℕ → List ℕ → List ℕ
add_at i [] = []
add_at zero (n ∷ ns) = (n + 1) ∷ ns
add_at (suc i) (n ∷ ns) = n ∷ add_at i ns

abbrev pub no_hours : List ℕ
no_hours =
    0 ∷ 0 ∷ 0 ∷ 0 ∷ 0 ∷ 0 ∷ 0 ∷ 0 ∷ 0 ∷ 0 ∷ 0 ∷ 0 ∷ 0 ∷ 0 ∷ 0 ∷ 0 ∷ 0 ∷ 0 ∷ 0 ∷ 0 ∷ 0 ∷ 0 ∷ 0 ∷ 0
    ∷ []

-- One message in the hour it came, if that was in the last day.
unfoldable pub add_hour : ℤ → ℤ → List ℕ → List ℕ
unfolding add_at ◌-ℤ◌
add_hour now ts hours =
    let day_start = now -ℤ pos (24 * 3600 * 1000) in
    let bucket = pos_part (ts -ℤ day_start) / (3600 * 1000) in
    if leb_ℤ day_start ts && leb_ℤ ts now then add_at (min bucket 23) hours else hours

unfoldable pub add_hours : ℤ → List MetaRec → List ℕ → List ℕ
unfolding add_hour
add_hours now [] hours = hours
add_hours now (m ∷ ms) hours = add_hours now ms (add_hour now m.ts hours)

unfoldable pub front_ts : List MetaRec → Option ℤ
front_ts [] = none
front_ts (m ∷ ms) = some m.ts

unfoldable pub back_ts : List MetaRec → Option ℤ
back_ts [] = none
back_ts (m ∷ []) = some m.ts
back_ts (m ∷ n ∷ ms) = back_ts (n ∷ ms)

-- `size` is the length of a segment's files on the disk.
unfoldable pub stats : (Files → ℕ) → ℤ → Inner → Stats
unfolding count_keys group_key sort_often add_hours front_ts back_ts Segments.disk_usage
stats size now i = record {
  total = length i.index;
  disk_bytes = Segments.disk_usage size i.segs;
  oldest = front_ts i.index;
  newest = back_ts i.index;
  by_group = count_keys (map (λ m. group_key m.group) i.index) [];
  top_senders = take 10 (sort_often (count_keys (map (λ m. m.from) i.index) []));
  last_24h = add_hours now i.index no_hours;
}
