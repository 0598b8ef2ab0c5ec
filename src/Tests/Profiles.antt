-- ===== src/Tests/Profiles.antt =====
-- The theorems about facts, ranges and profiles as documents, at small ones.
use runtime_code_skeptic.Base.{ℕ, ◌≡◌, refl, true, Bool, [], ◌∷◌, some, Bytes, codes, arith}
use runtime_code_skeptic.Evidence.{EvidenceClass}
use runtime_code_skeptic.Base.Sort.{sort_by}
use runtime_code_skeptic.Fact.{Fact, known}
use runtime_code_skeptic.Profile.{Architecture, ProfileOrigin, EnvironmentProfile}
use runtime_code_skeptic.Json.{
  Value, no_items, item, no_members, member, find_member, insert_member,
}
use runtime_code_skeptic.Json.Parser.{parse, ParseResult, parse_key, parse_scalar, next_element}
use runtime_code_skeptic.Document.{Outcome}
use runtime_code_skeptic.Document.Facts.{Statement, fact_from_json, fact_to_json}
use runtime_code_skeptic.Document.Payloads.{address_payload, fact_round_trip}
use runtime_code_skeptic.Document.Ranges.{RangeEntry, range_from_json, range_to_json}
use runtime_code_skeptic.Document.RangeTexts.{range_round_trip}
use runtime_code_skeptic.Document.Reader.{profile_from_json, no_protection}
use runtime_code_skeptic.Document.Consistent.{IsConsistent, profile_from_json-IsConsistent}

abbrev highest : Statement ℕ
highest = record {
  fact = Fact.established 0x7FFF0000 EvidenceClass.measured_capability;
  source = codes "probe";
  note = [];
}

fact_round_trip_example :
    fact_from_json (address_payload.read) (some (fact_to_json (address_payload.encode) highest))
    ≡ Outcome.ok highest
unfolding address_payload
fact_round_trip_example = fact_round_trip address_payload highest ((λ e. cc), omega arith)

abbrev hole : RangeEntry
hole = record {
  entry_range = record {
    range = record { start = 0x1000; stop = 0x8000 };
    evidence = EvidenceClass.observed_invariant;
  };
  source = [];
  note = codes "guard";
}

range_round_trip_example : range_from_json (range_to_json hole) ≡ Outcome.ok hole
range_round_trip_example = range_round_trip hole (omega arith) (omega arith)

abbrev profile_text : Bytes
profile_text =
    codes
      "{\"schema\":\"runtime-skeptic.environment-profile.v1\",\"origin\":\"measured\",\"platform\":{\"process_arch\":\"aarch64\"},\"virtual_memory\":{\"page_size\":{\"value\":4096,\"evidence\":\"measured_capability\"},\"available_ranges\":[{\"start\":\"0x1000\",\"end\":\"0x8000\",\"evidence\":\"measured_capability\"}]}}"

abbrev accept : Value → Bool
accept v = true

abbrev range_value : Value
range_value = Value.object (
    member (codes "end") (Value.str (codes "0x8000")) (
      member (codes "evidence") (Value.str (codes "measured_capability"))
        (member (codes "start") (Value.str (codes "0x1000")) no_members)))

abbrev page_size_value : Value
page_size_value = Value.object (
    member (codes "evidence") (Value.str (codes "measured_capability"))
      (member (codes "value") (Value.uint 4096) no_members))

abbrev memory_value : Value
memory_value = Value.object (
    member (codes "available_ranges") (Value.array (item range_value no_items))
      (member (codes "page_size") page_size_value no_members))

abbrev profile_value : Value
profile_value = Value.object (
    member (codes "origin") (Value.str (codes "measured")) (
      member (codes "platform")
        (Value.object (member (codes "process_arch") (Value.str (codes "aarch64")) no_members))
        (member (codes "schema") (Value.str (codes "runtime-skeptic.environment-profile.v1"))
          (member (codes "virtual_memory") memory_value no_members))))

abbrev read_profile : EnvironmentProfile
read_profile = record {
  origin = ProfileOrigin.measured;
  process_arch = Architecture.aarch64;
  vm = record {
    page_size = Fact.established 4096 EvidenceClass.measured_capability;
    allocation_granularity = Fact.unknown;
    min_map_address = Fact.unknown;
    max_user_address = Fact.unknown;
    max_single_reservation = Fact.unknown;
    max_single_reservation_hinted = Fact.unknown;
    anonymous_mapping_supported = Fact.unknown;
    exact_mapping = Fact.unknown;
    hinted_mapping_may_relocate = Fact.unknown;
    fixed_noreplace_available = Fact.unknown;
    reserve_commit_model = Fact.unknown;
    file_map_beyond_eof = Fact.unknown;
    protection = no_protection;
    unavailable_ranges = [];
    available_ranges =
        record {
          range = record { start = 0x1000; stop = 0x8000 };
          evidence = EvidenceClass.measured_capability;
        }
        ∷ [];
  };
}

profile_text_is_read : parse profile_text ≡ ParseResult.value profile_value
unfolding parse parse_key parse_scalar find_member next_element insert_member
profile_text_is_read = refl

profile_is_read : profile_from_json accept profile_value ≡ Outcome.ok read_profile
unfolding profile_from_json known sort_by
profile_is_read = refl

profile_from_json-IsConsistent_example : IsConsistent (read_profile.vm)
profile_from_json-IsConsistent_example =
    profile_from_json-IsConsistent accept profile_text profile_value read_profile
      profile_text_is_read profile_is_read
