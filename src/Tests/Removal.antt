-- ===== src/Tests/Removal.antt =====
-- Searches in the message log of crates/s2l-store, and what is removed from it, on concrete messages.
use mathlib.Core.List.{Perm}
use stmp2log.Prelude.{
  ℕ, zero, suc, ◌+◌, ◌-◌, ◌≤◌, ◌<◌, ◌≡◌, refl, List, [], ◌∷◌, map, Option, none, some, true, any,
  leb, min, take, drop, keep, ◌==◌, arith, length, if◌then◌else◌,
}
use stmp2log.Prelude.Int.{pos}
use stmp2log.Prelude.Text.{Text, codes}
use stmp2log.Store.Record.{MetaRec, MetaLine}
use stmp2log.Store.Query
use stmp2log.Store.Query.{Query}
use stmp2log.Store.Segments
use stmp2log.Store.Segments.{Segments, Open, Files, ensure_open}
use stmp2log.Store.Log
use stmp2log.Store.Log.{Inner, NewMessage, Retention}
use stmp2log.Store.Log.Search
use stmp2log.Store.Log.Stats.{stats}
use stmp2log.Store.Log.Counts.{stats_lem, counts, in_day}
use stmp2log.Store.Log.Pages.{query_lem, IsOrdered}
use stmp2log.Store.Log.LastWord.{replayed-find_id, last_word, top_floor}
use stmp2log.Store.Log.Removal.{delete_lem}
use stmp2log.Store.Log.Cleared.{clear_lem}
use stmp2log.Store.Log.Limits.{append_diverges}
use stmp2log.Tests.Log.{
  report, news, encode, small, empty_store, json, entry, one, body_open, one-IsValid,
}

abbrev query : Query
query = record {
  text = none;
  subject = some (codes "disk");
  body = none;
  from = none;
  from_user = none;
  from_domain = some (codes "x");
  peer = none;
  group = none;
  start = none;
  end = none;
  has_attachment = some true;
  sort = Query.time_desc;
  offset = 0;
  limit = 0;
}

abbrev lower : Text → Text
lower t = t

found_one : (Search.query json lower query one).total ≡ 1
unfolding Search.query Search.hits Query.matches_meta Log.meta_of
found_one = refl

query_lem_example :
    (found : List MetaRec) × IsOrdered query.sort found
    × Perm found (Search.hits json lower (Query.clamp query) one)
    × ((Search.query json lower query one).items
        ≡ take (Query.clamp query).limit (drop query.offset found))
    × ((Search.query json lower query one).total ≡ length found)
    × (length (Search.query json lower query one).items
        ≡ min (Query.clamp query).limit (length found - query.offset))
    × (1 ≤ (Query.clamp query).limit)
    × ((Query.clamp query).limit ≤ 500)
query_lem_example = query_lem json lower query one

abbrev size : Files → ℕ
size f = length f.body + length f.att

stats_lem_example :
    ((stats size (pos 2000) one).total ≡ length one.index)
    × (Segments.sum_of (counts (stats size (pos 2000) one).by_group) ≡ length one.index)
    × (length (stats size (pos 2000) one).last_24h ≡ 24)
    × (Segments.sum_of (stats size (pos 2000) one).last_24h
        ≡ length (keep (λ m. in_day (pos 2000) m.ts) one.index))
    × (length (stats size (pos 2000) one).top_senders ≤ 10)
stats_lem_example = stats_lem size (pos 2000) one

-- The store once its message was deleted.
abbrev none_left : Inner
none_left = record one {
  segs = record {
    files =
        (
          1,
          record {
            meta = MetaLine.msg (entry none) ∷ MetaLine.del 1 ∷ [];
            body = 0 ∷ 3 ∷ 10 ∷ [];
            att = 1 ∷ 2 ∷ 3 ∷ [];
          },
        )
        ∷ [];
    cur = some body_open;
  };
  index = [];
}

deleted : Log.delete (1 ∷ []) one ≡ some (1, none_left)
unfolding Log.delete Segments.append_meta Log.meta_of
deleted = refl

delete_lem_example :
    (Log.find_id 1 none_left.index
      ≡ (if any (λ d. 1 == d) (1 ∷ []) then none else Log.find_id 1 one.index))
    × (1 + length none_left.index ≡ length one.index)
delete_lem_example = delete_lem (1 ∷ []) one none_left 1 1 one-IsValid deleted

abbrev all_gone : Inner
all_gone = record one {
  segs = record {
    files =
        (
          1,
          record {
            meta = MetaLine.msg (entry none) ∷ MetaLine.floor_line 2 ∷ [];
            body = 0 ∷ 3 ∷ 10 ∷ [];
            att = 1 ∷ 2 ∷ 3 ∷ [];
          },
        )
        ∷ [];
    cur = some body_open;
  };
  index = [];
  floor = 2;
}

cleared : Log.clear one ≡ some (1, all_gone)
unfolding Log.clear Segments.append_meta Log.meta_of
cleared = refl

-- The store opened again on what `clear` left.
abbrev started_again : Inner
started_again = record all_gone { segs = record all_gone.segs { cur = none }; next_id = 3 }

reads_nothing : Log.open_store (pos 0) small all_gone.segs.files ≡ some started_again
unfolding Log.open_store Log.replayed Segments.open_dir Log.meta_of
reads_nothing = refl

clear_lem_example :
    (all_gone.index ≡ [])
    × (1 ≡ length one.index)
    × (all_gone.next_id ≡ one.next_id)
    × (Log.find_id 1 started_again.index ≡ none)
clear_lem_example =
    clear_lem one all_gone started_again 1 1 (pos 0) small one-IsValid (omega arith) cleared
      reads_nothing

replayed-find_id_example : Log.find_id 1 (Log.replayed small none_left.segs).index ≡ (
    if leb (top_floor 0 (Log.lines_of none_left.segs (Segments.nums none_left.segs))) 1
    then last_word 1 none (Log.lines_of none_left.segs (Segments.nums none_left.segs))
    else none)
replayed-find_id_example = replayed-find_id 1 small none_left.segs

-- So many bytes.
bytes_of : ℕ → List ℕ
bytes_of zero = []
bytes_of (suc n) = 0 ∷ bytes_of n

length-bytes_of : (n : ℕ) → length (bytes_of n) ≡ n
unfolding bytes_of
length-bytes_of zero = refl
length-bytes_of (suc n) = omega (arith, length-bytes_of n)

abbrev large : NewMessage
large = record news {
  mail = record report {
    attachments =
        record { filename = []; mime = []; size = 4190209; bytes = some (bytes_of 4190209) } ∷ [];
  };
}

too_large : Segments.max_body_bytes < Segments.total (Log.stored_atts large.mail.attachments) + 4096
unfolding Segments.total Log.stored_atts
too_large = omega (arith, length-bytes_of 4190209)

append_diverges_example :
    ((fuel : ℕ)
      → Segments.ensure_open fuel
          (Segments.total (Log.stored_atts large.mail.attachments) + 4096)
          empty_store.segs
        ≡ none)
    × (Log.append json encode (pos 0) large empty_store ≡ none)
append_diverges_example = append_diverges json encode (pos 0) large empty_store too_large

-- Three segments. The second has one message, and the line that the message 1 of the first was deleted.
abbrev at_seg : ℕ → ℕ → MetaRec
at_seg id seg = record (entry none) { id = id; seg = seg }

abbrev three : Inner
three = record {
  segs = record {
    files =
        (
          1,
          record {
            meta = MetaLine.msg (at_seg 1 1) ∷ MetaLine.msg (at_seg 2 1) ∷ [];
            body = [];
            att = [];
          },
        )
        ∷ (
          2,
          record { meta = MetaLine.msg (at_seg 3 2) ∷ MetaLine.del 1 ∷ []; body = []; att = [] },
        )
        ∷ (3, record { meta = MetaLine.msg (at_seg 4 3) ∷ []; body = []; att = [] })
        ∷ [];
    cur = some (record { num = 3; body_len = 0; records = 1; att = none });
  };
  index = at_seg 2 1 ∷ at_seg 3 2 ∷ at_seg 4 3 ∷ [];
  next_id = 5;
  floor = 0;
  retention = Log.default_retention;
}

-- The numbers of the messages of a store that is opened again after `delete`.
abbrev ids : List MetaRec → List ℕ
ids ms = map (λ m. m.id) ms

abbrev ids_of : Option Inner → List ℕ
ids_of none = []
ids_of (some i) = ids i.index

abbrev files_of : Option (ℕ × Inner) → List (ℕ × Files)
files_of none = []
files_of (some r) = r.1.segs.files

-- The message 1, which was deleted, is back once the message 3 is deleted, its segment goes and the store is
-- opened again.
comes_back :
    ids_of (Log.open_store (pos 0) Log.default_retention (files_of (Log.delete (3 ∷ []) three)))
    ≡ 1 ∷ 2 ∷ 4 ∷ []
unfolding Log.open_store Log.delete Log.replayed Segments.open_dir Log.meta_of
comes_back = refl
