-- ===== src/Document/RangeTexts.antt =====
-- A range that `ClassifiedRange::to_json` wrote is read back by `from_json` (src/vm/address_range.cpp).
use runtime_code_skeptic.Base.{ℕ, ◌≤◌, ltb, false, [], ◌∷◌, ◌≡◌, refl, ap, ◌∙◌, Bytes, codes, arith}
use runtime_code_skeptic.Evidence.{EvidenceClass}
use runtime_code_skeptic.Evidence.Names.{evidence_table, evidence_name}
use runtime_code_skeptic.Range.{uint64_max}
use runtime_code_skeptic.Json.{Value}
use runtime_code_skeptic.Json.Hex.{from_hex-to_hex}
use runtime_code_skeptic.Json.Writer.{to_hex}
use runtime_code_skeptic.Document.{Failure, Outcome, ◌>>=◌, ◌>>◌, or_refuse, refuse_if, entry}
use runtime_code_skeptic.Document.Ranges.{RangeEntry, read_end, range_from_json, range_to_json}
use runtime_code_skeptic.Document.Payloads.{class_read}

read_end-to_hex : (n : ℕ) → n ≤ uint64_max → read_end (Value.str (to_hex n)) ≡ Outcome.ok n
unfolding read_end
read_end-to_hex n h = ap (λ o. or_refuse o Failure.bad_address) (from_hex-to_hex n h)

abbrev range_entry : ℕ → ℕ → EvidenceClass → Bytes → Bytes → RangeEntry
range_entry start stop class source note = record {
  entry_range = record { range = record { start = start; stop = stop }; evidence = class };
  source = source;
  note = note;
}

range_fields :
    (start stop : ℕ) (class : EvidenceClass) (source note : Bytes)
    → range_from_json (range_to_json (range_entry start stop class source note)) ≡ (do
      first ← read_end (Value.str (to_hex start))
      last ← read_end (Value.str (to_hex stop))
      refuse_if (ltb last first) Failure.reversed_range
      c ← or_refuse (entry evidence_table (codes (evidence_name class))) Failure.unrecognized_value
      Outcome.ok (range_entry first last c source note))
unfolding range_from_json range_to_json
range_fields start stop class [] [] = refl
range_fields start stop class [] (c ∷ n) = refl
range_fields start stop class (c ∷ s) [] = refl
range_fields start stop class (c ∷ s) (d ∷ n) = refl

-- A range is read back as it was written, with its class, its source and its note. Its ends are in order
-- and fit in 64 bits.
pub range_round_trip :
    (r : RangeEntry)
    → r.entry_range.range.start ≤ r.entry_range.range.stop
    → r.entry_range.range.stop ≤ uint64_max
    → range_from_json (range_to_json r) ≡ Outcome.ok r
range_round_trip r h l =
    let start = r.entry_range.range.start in
    let stop = r.entry_range.range.stop in
    let first = read_end-to_hex start (omega arith) in
    let last = read_end-to_hex stop l in
    let order : ltb stop start ≡ false = ground arith in
    let class = class_read r.entry_range.evidence in
    range_fields start stop r.entry_range.evidence r.source r.note
    ∙ rw (first, last, order, class) refl
