-- ===== src/Document/Ranges.antt =====
-- `ClassifiedRange::from_json` and `to_json` of src/vm/address_range.cpp, and `read_ranges` of
-- src/vm/profile.cpp.
use runtime_code_skeptic.Base.{
  ℕ, ltb, ◌==◌, Bool, not, List, [], ◌∷◌, Option, none, some, if◌then◌else◌, Bytes, codes,
}
use runtime_code_skeptic.Base.Sort.{sort_by}
use runtime_code_skeptic.Evidence.Names.{evidence_table, evidence_name}
use runtime_code_skeptic.Range.{ClassifiedRange}
use runtime_code_skeptic.Json.{Value, Items, no_items, item, no_members, find_member, insert_member}
use runtime_code_skeptic.Json.Hex.{from_hex}
use runtime_code_skeptic.Json.Writer.{to_hex}
use runtime_code_skeptic.Document.{
  Failure, Outcome, ◌>>=◌, ◌>>◌, or_refuse, refuse_if, check_keys, optional_string, named,
}
use runtime_code_skeptic.Document.Facts.{unless_empty, required, is_unknown}

-- A classified range with the prose that a document keeps beside it.
pub record RangeEntry : Type 0 where
  pub entry_range : ClassifiedRange
  pub source : Bytes
  pub note : Bytes

-- An end of a range: a string in hexadecimal.
unfoldable pub read_end : Value → Outcome ℕ
unfolding from_hex
read_end (Value.str s) = or_refuse (from_hex s) Failure.bad_address
read_end v = Outcome.refused Failure.wrong_type

unfoldable pub range_from_json : Value → Outcome RangeEntry
unfolding check_keys find_member read_end named optional_string
range_from_json (Value.object ms) = do
  check_keys ("start" ∷ "end" ∷ "evidence" ∷ "note" ∷ "source" ∷ []) ms
  first ← required (find_member (codes "start") ms)
  last ← required (find_member (codes "end") ms)
  start ← read_end first
  stop ← read_end last
  refuse_if (ltb stop start) Failure.reversed_range
  evidence ← required (find_member (codes "evidence") ms)
  class ← named evidence_table evidence
  source ← optional_string (find_member (codes "source") ms)
  note ← optional_string (find_member (codes "note") ms)
  Outcome.ok (record {
    entry_range = record { range = record { start = start; stop = stop }; evidence = class };
    source = source;
    note = note;
  })
range_from_json v = Outcome.refused Failure.wrong_type

unfoldable pub range_to_json : RangeEntry → Value
unfolding insert_member to_hex evidence_name
range_to_json r = Value.object (
    unless_empty "note" r.note (
      unless_empty "source" r.source (
        insert_member (codes "evidence") (Value.str (codes (evidence_name r.entry_range.evidence)))
          (insert_member (codes "end") (Value.str (to_hex r.entry_range.range.stop)) (
            insert_member (codes "start") (Value.str (to_hex r.entry_range.range.start))
              no_members)))))

-- `operator<` of ranges.
unfoldable pub range_before : ClassifiedRange → ClassifiedRange → Bool
range_before a b =
    if not (a.range.start == b.range.start)
    then ltb a.range.start b.range.start
    else ltb a.range.stop b.range.stop

-- The loop of `read_ranges`.
unfoldable pub read_range_items : Items → Outcome (List ClassifiedRange)
unfolding range_from_json
read_range_items no_items = Outcome.ok []
read_range_items (item v xs) = do
  r ← range_from_json v
  refuse_if (is_unknown r.entry_range.evidence) Failure.unknown_range
  rest ← read_range_items xs
  Outcome.ok (r.entry_range ∷ rest)

unfoldable pub read_ranges : Option Value → Outcome (List ClassifiedRange)
unfolding read_range_items range_before
read_ranges none = Outcome.ok []
read_ranges (some (Value.array xs)) = do
  ranges ← read_range_items xs
  Outcome.ok (sort_by range_before ranges)
read_ranges (some v) = Outcome.refused Failure.wrong_type
