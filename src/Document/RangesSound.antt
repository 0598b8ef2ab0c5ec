-- ===== src/Document/RangesSound.antt =====
-- What the reader of the ranges of a profile lets through (`read_ranges` of src/vm/profile.cpp).
use Prim.Native.String.{String}
use runtime_code_skeptic.Base.{◌≤◌, ltb, false, [], ◌∷◌, All, ◌≡◌, Option, none, some, codes, arith}
use runtime_code_skeptic.Base.Sort.{All-sort_by}
use runtime_code_skeptic.Evidence.Names.{evidence_table}
use runtime_code_skeptic.Range.{ClassifiedRange, uint64_max}
use runtime_code_skeptic.Json.{Value, Items, no_items, item, find_member}
use runtime_code_skeptic.Json.Hex.{from_hex, from_hex-fits}
use runtime_code_skeptic.Document.{Failure, check_keys, optional_string, named}
use runtime_code_skeptic.Document.Facts.{is_unknown, required}
use runtime_code_skeptic.Document.Ranges.{
  RangeEntry, read_end, range_from_json, range_before, read_range_items, read_ranges,
}
use runtime_code_skeptic.Document.Sound.{
  Gives, gives, refuses, Any-Gives, bind-Gives, refuse_if-Gives, or_refuse-Gives,
}

-- A range of a profile: its ends are in order and fit in 64 bits, and it has a class of evidence.
abbrev pub IsProfileRange : ClassifiedRange → Type 0
IsProfileRange r =
    (r.range.start ≤ r.range.stop) × ((r.range.stop ≤ uint64_max) × (is_unknown r.evidence ≡ false))

read_end-Gives : (v : Value) → Gives (λ n. n ≤ uint64_max) (read_end v)
unfolding read_end
read_end-Gives (Value.str s) = or_refuse-Gives (from_hex s) Failure.bad_address (from_hex-fits s)
read_end-Gives Value.null = refuses
read_end-Gives (Value.bool b) = refuses
read_end-Gives (Value.int z) = refuses
read_end-Gives (Value.uint n) = refuses
read_end-Gives (Value.double t) = refuses
read_end-Gives (Value.array t) = refuses
read_end-Gives (Value.object t) = refuses

abbrev OrderedEntry : RangeEntry → Type 0
OrderedEntry r =
    (r.entry_range.range.start ≤ r.entry_range.range.stop) × (r.entry_range.range.stop ≤ uint64_max)

range_from_json-Gives : (v : Value) → Gives OrderedEntry (range_from_json v)
unfolding range_from_json
range_from_json-Gives Value.null = refuses
range_from_json-Gives (Value.bool b) = refuses
range_from_json-Gives (Value.int z) = refuses
range_from_json-Gives (Value.uint n) = refuses
range_from_json-Gives (Value.double t) = refuses
range_from_json-Gives (Value.str t) = refuses
range_from_json-Gives (Value.array t) = refuses
range_from_json-Gives (Value.object ms) =
    let at = λ (key : String). find_member (codes key) ms in
    let keys = check_keys ("start" ∷ "end" ∷ "evidence" ∷ "note" ∷ "source" ∷ []) ms in
    bind-Gives _ (Any-Gives keys) (λ u a.
      bind-Gives _ (Any-Gives (required (at "start"))) (λ first a.
        bind-Gives _ (Any-Gives (required (at "end"))) (λ last a.
          bind-Gives _ (Any-Gives (read_end first)) (λ start a.
            bind-Gives _ (read_end-Gives last) (λ stop fits.
              bind-Gives _ (refuse_if-Gives (ltb stop start) Failure.reversed_range) (λ u order.
                bind-Gives _ (Any-Gives (required (at "evidence"))) (λ evidence a.
                  bind-Gives _ (Any-Gives (named evidence_table evidence)) (λ class a.
                    bind-Gives _ (Any-Gives (optional_string (at "source"))) (λ source a.
                      bind-Gives _ (Any-Gives (optional_string (at "note")))
                        (λ note a. gives (ground arith, fits)))))))))))

read_range_items-Gives : (xs : Items) → Gives (All IsProfileRange) (read_range_items xs)
unfolding read_range_items
read_range_items-Gives no_items = gives tt
read_range_items-Gives (item v xs) = bind-Gives _ (range_from_json-Gives v) (λ r h.
    bind-Gives _ (refuse_if-Gives (is_unknown r.entry_range.evidence) Failure.unknown_range)
      (λ u k. bind-Gives _ (read_range_items-Gives xs) (λ rest hs. gives ((h.0, (h.1, k)), hs))))

pub read_ranges-Gives : (o : Option Value) → Gives (All IsProfileRange) (read_ranges o)
unfolding read_ranges
read_ranges-Gives none = gives tt
read_ranges-Gives (some (Value.array xs)) =
    bind-Gives _ (read_range_items-Gives xs)
      (λ ranges h. gives (All-sort_by range_before IsProfileRange ranges h))
read_ranges-Gives (some Value.null) = refuses
read_ranges-Gives (some (Value.bool b)) = refuses
read_ranges-Gives (some (Value.int z)) = refuses
read_ranges-Gives (some (Value.uint n)) = refuses
read_ranges-Gives (some (Value.double t)) = refuses
read_ranges-Gives (some (Value.str t)) = refuses
read_ranges-Gives (some (Value.object t)) = refuses
