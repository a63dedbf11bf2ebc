-- ===== src/Store/Segments.antt =====
-- crates/s2l-store/src/seg.rs: the files of the log. A segment has a file of meta records, one of bodies and
-- one of attachments. The file system does what it is asked; JSON is a parameter. Sizes of files are
-- not bounded, the numbers of segments have 32 bits.
pub mod Opening
pub mod Growth
pub mod Held
pub mod Append
pub mod ReadBack
use stmp2log.Prelude.{
  ℕ, zero, suc, ◌+◌, ◌%◌, ◌^◌, ◌≤◌, max, List, [], ◌∷◌, ◌++◌, map, Option, none, some, Bool, true,
  false, not, ◌||◌, length, take, drop, ltb, leb, ◌==◌, keep, if◌then◌else◌,
}
use stmp2log.Store.Record.{BodyRec, MetaLine}

abbrev pub max_body_bytes : ℕ
max_body_bytes = 4194304

abbrev pub max_records : ℕ
max_records = 2000

pub record Files : Type 0 where
  pub meta : List MetaLine
  pub body : List ℕ
  pub att : List ℕ

abbrev pub no_files : Files
no_files = record { meta = []; body = []; att = [] }

-- The segment that is written to; `att` is the length of its file of attachments, once it is open.
pub record Open : Type 0 where
  pub num : ℕ
  pub body_len : ℕ
  pub records : ℕ
  pub att : Option ℕ

-- The segments that are there, in the order of their numbers.
pub record Segments : Type 0 where
  pub files : List (ℕ × Files)
  pub cur : Option Open

pub record Loc : Type 0 where
  pub seg : ℕ
  pub off : ℕ
  pub len : ℕ

-- `serde_json::to_vec` and `from_slice` for bodies.
pub record Json : Type 0 where
  pub to_vec : BodyRec → List ℕ
  pub from_slice : List ℕ → Option BodyRec

unfoldable pub open_dir : List (ℕ × Files) → Segments
open_dir files = record { files = files; cur = none }

unfoldable pub nums : Segments → List ℕ
nums s = map (λ e. e.0) s.files

unfoldable pub files_at : ℕ → List (ℕ × Files) → Option Files
files_at n [] = none
files_at n ((m, f) ∷ fs) = if m == n then some f else files_at n fs

-- The files of a segment changed, or made at the place of its number.
unfoldable pub set_files : ℕ → Files → List (ℕ × Files) → List (ℕ × Files)
set_files n g [] = (n, g) ∷ []
set_files n g ((m, f) ∷ fs) =
    let rest = set_files n g fs in
    if m == n then (n, g) ∷ fs else if ltb n m then (n, g) ∷ (m, f) ∷ fs else (m, f) ∷ rest

-- The last of the numbers, which are sorted: the largest.
unfoldable pub last_num : List (ℕ × Files) → Option ℕ
last_num [] = none
last_num ((m, f) ∷ fs) = elim (last_num fs) [ none ↦ some m | some k ↦ some (max m k) ]

unfoldable pub read_meta : Segments → ℕ → List MetaLine
unfolding files_at
read_meta s n = elim (files_at n s.files) [ none ↦ [] | some f ↦ f.meta ]

-- `seek` and `read_exact`.
unfoldable pub read_exact : ℕ → ℕ → List ℕ → Option (List ℕ)
read_exact off len bytes =
    if leb (off + len) (length bytes) then some (take len (drop off bytes)) else none

unfoldable pub att_in : ℕ → ℕ → Option Files → Option (List ℕ)
unfolding read_exact
att_in off len none = none
att_in off len (some f) = read_exact off len f.att

unfoldable pub read_att : Segments → ℕ → ℕ → ℕ → Option (List ℕ)
unfolding files_at att_in
read_att s n off len = att_in off len (files_at n s.files)

unfoldable pub parsed : Json → Option (List ℕ) → Option BodyRec
parsed json none = none
parsed json (some buf) = json.from_slice buf

unfoldable pub body_in : Json → Loc → Option Files → Option BodyRec
unfolding parsed read_exact
body_in json loc none = none
body_in json loc (some f) = parsed json (read_exact loc.off loc.len f.body)

unfoldable pub read_body_at : Json → Segments → Loc → Option BodyRec
unfolding body_in files_at
read_body_at json s loc = body_in json loc (files_at loc.seg s.files)

unfoldable pub need_roll : ℕ → Option Open → Bool
need_roll incoming none = true
need_roll incoming (some c) =
    ltb max_body_bytes (c.body_len + incoming) || leb max_records c.records

-- The number of the segment that is opened next.
unfoldable pub next_num : Option ℕ → Option Open → ℕ
next_num none cur = 1
next_num (some last) none = last
next_num (some last) (some c) = (last + 1) % 2 ^ 32

unfoldable pub files_or_new : Option Files → Files
files_or_new none = no_files
files_or_new (some f) = f

-- The segment `num` opened for appending, made if it is not there.
unfoldable pub open_at : ℕ → ℕ → Segments → Segments
unfolding files_at set_files files_or_new
open_at incoming num s =
    let f = files_or_new (files_at num s.files) in
    let full = ltb max_body_bytes (length f.body + incoming) in
    record {
      files = set_files num f s.files;
      cur = some (record {
        num = num;
        body_len = length f.body;
        records = if full then (if ltb 0 (length f.body) then max_records else 0) else 0;
        att = none;
      });
    }

-- What `ensure_open` finds full is opened again; it calls itself then.
unfoldable pub ensure_open : ℕ → ℕ → Segments → Option Segments
unfolding need_roll next_num last_num files_at files_or_new
ensure_open zero incoming s = none
ensure_open (suc fuel) incoming s =
    let num = next_num (last_num s.files) s.cur in
    let t = open_at incoming num s in
    let again = ensure_open fuel incoming t in
    if not (need_roll incoming s.cur)
    then some s
    else if ltb max_body_bytes (length (files_or_new (files_at num s.files)).body + incoming)
    then again
    else some t

-- Two calls are enough where any number is, see `Opening`.
abbrev pub open_fuel : ℕ
open_fuel = 2

unfoldable pub total : List (List ℕ) → ℕ
total [] = 0
total (a ∷ atts) = length a + total atts

unfoldable pub joined_bytes : List (List ℕ) → List ℕ
joined_bytes [] = []
joined_bytes (a ∷ atts) = a ++ joined_bytes atts

-- The offset and the length of each attachment, from the length of the file on.
unfoldable pub spots_from : ℕ → List (List ℕ) → List (ℕ × ℕ)
spots_from at [] = []
spots_from at (a ∷ atts) = (at, length a % 2 ^ 32) ∷ spots_from (at + length a) atts

unfoldable pub att_start : Open → Files → ℕ
att_start c f = elim (c.att) [ none ↦ length f.att | some n ↦ n ]

unfoldable pub att_after : Open → Files → List (List ℕ) → Option ℕ
unfolding att_start total
att_after c f [] = c.att
att_after c f (a ∷ atts) = some (att_start c f + total (a ∷ atts))

-- The writes of `append` to the open segment.
module _ (json : Json) (atts : List (List ℕ)) (body : List (ℕ × ℕ) → BodyRec)
    (meta : Loc → MetaLine) where
  unfoldable pub body_json : Open → Files → List ℕ
  unfolding spots_from att_start
  body_json c f = json.to_vec (body (spots_from (att_start c f) atts))

  unfoldable pub loc_of : Open → Files → Loc
  unfolding body_json
  loc_of c f = record { seg = c.num; off = c.body_len; len = length (body_json c f) % 2 ^ 32 }

  unfoldable pub write_to : Open → Files → Files
  unfolding loc_of body_json joined_bytes
  write_to c f = record {
    meta = f.meta ++ meta (loc_of c f) ∷ [];
    body = f.body ++ (body_json c f ++ 10 ∷ []);
    att = f.att ++ joined_bytes atts;
  }

  unfoldable pub opened_after : Open → Files → Open
  unfolding att_after body_json
  opened_after c f = record {
    num = c.num;
    body_len = c.body_len + (length (body_json c f) + 1);
    records = c.records + 1;
    att = att_after c f atts;
  }

  unfoldable pub write_open : Segments → Option Open → Option (Loc × Segments)
  unfolding write_to opened_after loc_of files_or_new files_at set_files
  write_open s none = none
  write_open s (some c) =
      let f = files_or_new (files_at c.num s.files) in
      some (
        loc_of c f,
        record { files = set_files c.num (write_to c f) s.files; cur = some (opened_after c f) },
      )

  unfoldable pub append_open : Option Segments → Option (Loc × Segments)
  unfolding write_open
  append_open none = none
  append_open (some s) = write_open s s.cur

  unfoldable pub append : Segments → Option (Loc × Segments)
  unfolding append_open ensure_open total
  append s = append_open (ensure_open open_fuel (total atts + 4096) s)

unfoldable pub add_line : MetaLine → Files → Files
add_line line f = record f { meta = f.meta ++ line ∷ [] }

unfoldable pub write_meta : MetaLine → Segments → Option Open → Segments
unfolding files_or_new files_at set_files add_line
write_meta line s none = s
write_meta line s (some c) = record s {
  files = set_files c.num (add_line line (files_or_new (files_at c.num s.files))) s.files;
}

unfoldable pub append_meta_open : MetaLine → Option Segments → Option Segments
unfolding write_meta
append_meta_open line none = none
append_meta_open line (some s) = some (write_meta line s s.cur)

unfoldable pub append_meta : MetaLine → Segments → Option Segments
unfolding append_meta_open ensure_open
append_meta line s = append_meta_open line (ensure_open open_fuel 0 s)

unfoldable pub is_open_at : ℕ → Option Open → Bool
is_open_at n none = false
is_open_at n (some c) = c.num == n

unfoldable pub drop_segment : ℕ → Segments → Segments
unfolding is_open_at keep
drop_segment n s =
    if is_open_at n s.cur then s else record s { files = keep (λ e. not (e.0 == n)) s.files }

unfoldable pub sum_of : List ℕ → ℕ
sum_of [] = 0
sum_of (n ∷ ns) = n + sum_of ns

unfoldable pub disk_usage : (Files → ℕ) → Segments → ℕ
unfolding sum_of
disk_usage size s = sum_of (map (λ e. size (e.1)) s.files)
