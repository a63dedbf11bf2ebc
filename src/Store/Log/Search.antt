-- ===== src/Store/Log/Search.antt =====
-- crates/s2l-store/src/lib.rs: what is read from the store. `lower` is `str::to_lowercase`, `json` reads the
-- records of the bodies.
use stmp2log.Prelude.{
  ℕ, List, [], ◌∷◌, ◌++◌, map, Option, none, some, Bool, true, false, any, ◌&&◌, ◌||◌, length, take,
  drop, get_elem?, ltb, ◌==◌, keep, if◌then◌else◌,
}
use stmp2log.Prelude.Int.{ltb_ℤ}
use stmp2log.Prelude.Text.{Text, contains, split_on}
use stmp2log.Store.Record
use stmp2log.Store.Record.{MetaRec, BodyRec}
use stmp2log.Store.Segments
use stmp2log.Store.Segments.{Segments, Loc, Json, files_at}
use stmp2log.Store.Query
use stmp2log.Store.Query.{Query, Sort}
use stmp2log.Store.Log.{Inner, find_id}

pub record Message : Type 0 where
  pub meta : MetaRec
  pub body : BodyRec

pub record Page : Type 0 where
  pub items : List MetaRec
  pub total : ℕ

-- The records of the lines that can be read.
unfoldable pub read_lines : Json → List (List ℕ) → List BodyRec
read_lines json [] = []
read_lines json (l ∷ ls) = elim (json.from_slice l) [
  | none ↦ read_lines json ls
  | some r ↦ r ∷ read_lines json ls
]

unfoldable pub stream_body : Json → Segments → ℕ → List BodyRec
unfolding read_lines files_at split_on
stream_body json s n = elim (files_at n s.files) [
  | none ↦ []
  | some f ↦ read_lines json (split_on 10 f.body)
]

unfoldable pub in_html : Text → Option Text → (Text → Text) → Bool
unfolding contains
in_html needle none lower = false
in_html needle (some h) lower = contains (lower h) needle

unfoldable pub has_needle : (Text → Text) → Text → BodyRec → Bool
unfolding contains in_html
has_needle lower needle r = contains (lower r.text) needle || in_html needle r.html lower

-- The numbers of the messages whose bodies have the text, from the segments of the candidates.
unfoldable pub hits_in : Json → (Text → Text) → Segments → List MetaRec → Text → List ℕ → List ℕ
unfolding stream_body has_needle any keep
hits_in json lower s candidates needle [] = []
hits_in json lower s candidates needle (n ∷ ns) =
    map (λ r. r.id)
      (keep (λ r. any (λ m. m.id == r.id) candidates && has_needle lower needle r)
        (stream_body json s n))
    ++ hits_in json lower s candidates needle ns

unfoldable pub body_matches : Json → (Text → Text) → Segments → List MetaRec → Text → List ℕ
unfolding hits_in
body_matches json lower s candidates needle =
    hits_in json lower s candidates (lower needle) (map (λ m. m.seg) candidates)

-- Whether the message comes before the other in the order that is asked for.
unfoldable pub earlier : Sort → MetaRec → MetaRec → Bool
earlier Sort.time_desc a b =
    if ltb_ℤ b.ts a.ts then true else if ltb_ℤ a.ts b.ts then false else ltb b.id a.id
earlier Sort.time_asc a b =
    if ltb_ℤ a.ts b.ts then true else if ltb_ℤ b.ts a.ts then false else ltb a.id b.id

-- `sort_by`, which keeps the order of what is equal.
unfoldable pub insert_by : Sort → MetaRec → List MetaRec → List MetaRec
unfolding earlier
insert_by o m [] = m ∷ []
insert_by o m (x ∷ xs) =
    let rest = insert_by o m xs in if earlier o x m then x ∷ rest else m ∷ x ∷ xs

unfoldable pub sort_by : Sort → List MetaRec → List MetaRec
unfolding insert_by
sort_by o [] = []
sort_by o (m ∷ ms) = insert_by o m (sort_by o ms)

unfoldable pub with_body :
    Json → (Text → Text) → Segments → Option Text → List MetaRec → List MetaRec
unfolding body_matches any keep
with_body json lower s none hits = hits
with_body json lower s (some needle) hits =
    let ids = body_matches json lower s hits needle in keep (λ m. any (λ id. id == m.id) ids) hits

unfoldable pub hits : Json → (Text → Text) → Query → Inner → List MetaRec
unfolding with_body keep Query.matches_meta Query.non_empty
hits json lower q i =
    with_body json lower i.segs (Query.non_empty q.body) (keep (Query.matches_meta lower q) i.index)

unfoldable pub query : Json → (Text → Text) → Query → Inner → Page
unfolding hits sort_by Query.clamp
query json lower q i =
    let c = Query.clamp q in
    let found = hits json lower c i in
    record { items = take c.limit (drop c.offset (sort_by c.sort found)); total = length found }

unfoldable pub loc_in : MetaRec → Loc
loc_in m = record { seg = m.seg; off = m.body_off; len = m.body_len }

unfoldable pub or_empty : ℕ → Option BodyRec → BodyRec
or_empty id none = Record.empty_body id
or_empty id (some b) = b

-- The message that was found, with its body as far as that can be read.
unfoldable pub with_its_body : Json → ℕ → Segments → Option MetaRec → Option Message
unfolding loc_in or_empty Segments.read_body_at
with_its_body json id s none = none
with_its_body json id s (some m) =
    some (record { meta = m; body = or_empty id (Segments.read_body_at json s (loc_in m)) })

unfoldable pub get : Json → ℕ → Inner → Option Message
unfolding find_id with_its_body
get json id i = with_its_body json id i.segs (find_id id i.index)

unfoldable pub spot_in : Segments → ℕ → Option (ℕ × ℕ) → Option (List ℕ)
unfolding Segments.read_att
spot_in s n none = none
spot_in s n (some (off, len)) = Segments.read_att s n off len

unfoldable pub attachment_in : Segments → ℕ → ℕ → Option BodyRec → Option (List ℕ)
unfolding spot_in
attachment_in s n at none = none
attachment_in s n at (some b) = spot_in s n (get_elem? b.att_spots at)

unfoldable pub attachment_of : Json → Segments → ℕ → Option MetaRec → Option (List ℕ)
unfolding loc_in attachment_in Segments.read_body_at
attachment_of json s at none = none
attachment_of json s at (some m) =
    attachment_in s m.seg at (Segments.read_body_at json s (loc_in m))

unfoldable pub attachment : Json → ℕ → ℕ → Inner → Option (List ℕ)
unfolding find_id attachment_of
attachment json id at i = attachment_of json i.segs at (find_id id i.index)
