-- ===== src/Document/Consistent.antt =====
-- What `EnvironmentProfile::from_json` of src/vm/profile.cpp promises about the profiles that it lets through.
use Prim.Native.String.{String}
use runtime_code_skeptic.Base.{
  ℕ, ◌+◌, ◌≤◌, ◌<◌, Bool, false, not, All, ◌≡◌, Option, none, some, Bytes, codes, same_bytes, arith,
}
use runtime_code_skeptic.Fact.{Fact}
use runtime_code_skeptic.Range.{uint64_max}
use runtime_code_skeptic.Profile.{VirtualMemoryModel, EnvironmentProfile}
use runtime_code_skeptic.Json.{Value, Members, find_member}
use runtime_code_skeptic.Json.Shape.{IsValue, AllMembers}
use runtime_code_skeptic.Json.Parser.{parse, ParseResult}
use runtime_code_skeptic.Json.Canonical.{parsed-IsValue}
use runtime_code_skeptic.Document.{
  Failure, Outcome, refuse_if, optional_string, required_string, named,
}
use runtime_code_skeptic.Document.Facts.{
  read_bool, read_uint, read_address, read_support_level, required,
}
use runtime_code_skeptic.Document.Names.{reserve_commit_table, beyond_eof_table, origin_table}
use runtime_code_skeptic.Document.Reader.{
  read_fact, is_zero, contradict, check_strings, read_protection, read_memory, memory_object,
  read_platform, check_run, profile_schema, profile_from_json,
}
use runtime_code_skeptic.Document.RangesSound.{IsProfileRange, read_ranges-Gives}
use runtime_code_skeptic.Document.Sound.{
  Gives, gives, refuses, Any-Gives, bind-Gives, inside-Gives, refuse_if-Gives, Gives-at, Known,
  IsNode, find_member-IsNode, Reader, fact_from_json-Gives, read_address-Reader,
}

-- There is room between the bounds, if both are known.
abbrev pub Room : Fact ℕ → Fact ℕ → Type 0
Room (Fact.established low c) (Fact.established top c') = low < top
Room low top = Unit

abbrev pub IsPositive : ℕ → Type 0
IsPositive n = 0 < n

abbrev pub Fits : ℕ → Type 0
Fits n = n ≤ uint64_max

-- The sizes of pages are not zero, the bounds leave room and fit in 64 bits, and so do the ranges, each of
-- which has a class of evidence.
pub record IsConsistent (vm : VirtualMemoryModel) : Type 0 where
  pub pages : Known IsPositive vm.page_size × Known IsPositive vm.allocation_granularity
  pub bounds_fit : Known Fits vm.min_map_address × Known Fits vm.max_user_address
  pub room : Room vm.min_map_address vm.max_user_address
  pub unavailable : All IsProfileRange vm.unavailable_ranges
  pub available : All IsProfileRange vm.available_ranges

positive : (f : Fact ℕ) → is_zero f ≡ false → Known IsPositive f
positive (Fact.established n c) h = ground arith
positive Fact.unknown h = tt

Room-between : (low top : Fact ℕ) → contradict low top ≡ false → Room low top
Room-between (Fact.established low c) (Fact.established top c') h = ground arith
Room-between (Fact.established low c) Fact.unknown h = tt
Room-between Fact.unknown (Fact.established top c) h = tt
Room-between Fact.unknown Fact.unknown h = tt

read_fact-Gives :
    {A : Type 0} (P : A → Type 0) (read : Value → Outcome A) (d : ℕ) (key : String) (ms : Members)
    → Reader P read
    → AllMembers d ms
    → Gives (Known P) (read_fact read key ms)
read_fact-Gives P read d key ms r h =
    bind-Gives _
      (inside-Gives (codes key) (
        fact_from_json-Gives P read d (find_member (codes key) ms) r
          (find_member-IsNode d (codes key) ms h)))
      (λ s k. gives k)

read_memory-Gives : (d : ℕ) (ms : Members) → AllMembers d ms → Gives IsConsistent (read_memory ms)
unfolding read_memory
read_memory-Gives d ms h =
    let at = λ (key : String). find_member (codes key) ms in
    let ranges = λ (key : String). inside-Gives (codes key) (read_ranges-Gives (at key)) in
    let address =
      λ (key : String). read_fact-Gives Fits read_address d key ms read_address-Reader h in
    bind-Gives _ (Any-Gives (read_fact read_uint "page_size" ms)) (λ page_size a.
      bind-Gives _ (Any-Gives (read_fact read_uint "allocation_granularity" ms)) (λ granularity a.
        bind-Gives _ (refuse_if-Gives (is_zero page_size) Failure.impossible) (λ u page_zero.
          bind-Gives _ (refuse_if-Gives (is_zero granularity) Failure.impossible)
            (λ u granularity_zero. bind-Gives _ (address "min_map_address") (λ low low_fits.
              bind-Gives _ (address "max_user_address") (λ top top_fits.
                bind-Gives _ (refuse_if-Gives (contradict low top) Failure.contradictory_bounds)
                  (λ u no_room.
                    bind-Gives _ (Any-Gives (read_fact read_uint "max_single_reservation" ms))
                      (λ single a.
                        bind-Gives _
                          (Any-Gives (read_fact read_uint "max_single_reservation_hinted" ms))
                          (λ hinted a.
                            bind-Gives _
                              (Any-Gives (read_fact read_bool "anonymous_mapping_supported" ms))
                              (λ anonymous a.
                                bind-Gives _
                                  (Any-Gives (read_fact read_support_level "exact_mapping" ms))
                                  (λ exact a.
                                    bind-Gives _
                                      (Any-Gives (check_strings (at "exact_mapping_failure_codes")))
                                      (λ u a.
                                        bind-Gives _
                                          (Any-Gives
                                            (read_fact read_bool "hinted_mapping_may_relocate" ms))
                                          (λ relocate a.
                                            bind-Gives _
                                              (Any-Gives (
                                                read_fact read_bool "fixed_noreplace_available" ms))
                                              (λ noreplace a.
                                                bind-Gives _
                                                  (Any-Gives (
                                                    read_fact (named reserve_commit_table)
                                                      "reserve_commit_model" ms))
                                                  (λ rc a.
                                                    bind-Gives _
                                                      (Any-Gives (
                                                        read_fact (named beyond_eof_table)
                                                          "file_map_beyond_eof" ms))
                                                      (λ eof a.
                                                        bind-Gives _
                                                          (Any-Gives
                                                            (read_protection (at "protection")))
                                                          (λ protection a.
                                                            bind-Gives _
                                                            (ranges "unavailable_ranges")
                                                            (λ unavailable all_unavailable.
                                                            bind-Gives _ (ranges "available_ranges")
                                                            (λ available all_available.
                                                            gives (record {
                                                            pages = (
                                                            positive page_size page_zero,
                                                            positive granularity granularity_zero,
                                                            );
                                                            bounds_fit = (low_fits, top_fits);
                                                            room = Room-between low top no_room;
                                                            unavailable = all_unavailable;
                                                            available = all_available;
                                                            }))))))))))))))))))))

memory_object-Gives :
    (d : ℕ) (o : Option Value) → IsNode d o → Gives (AllMembers (d + 1)) (memory_object o)
unfolding memory_object
memory_object-Gives d none h = gives tt
memory_object-Gives d (some (Value.object ms)) h = gives h.1.1
memory_object-Gives d (some Value.null) h = refuses
memory_object-Gives d (some (Value.bool b)) h = refuses
memory_object-Gives d (some (Value.int z)) h = refuses
memory_object-Gives d (some (Value.uint n)) h = refuses
memory_object-Gives d (some (Value.double t)) h = refuses
memory_object-Gives d (some (Value.str t)) h = refuses
memory_object-Gives d (some (Value.array t)) h = refuses

profile_from_json-Gives :
    (validate : Value → Bool) (d : ℕ) (v : Value)
    → IsValue d v
    → Gives (λ p. IsConsistent p.vm) (profile_from_json validate v)
unfolding profile_from_json
profile_from_json-Gives validate d Value.null h = refuses
profile_from_json-Gives validate d (Value.bool b) h = refuses
profile_from_json-Gives validate d (Value.int z) h = refuses
profile_from_json-Gives validate d (Value.uint n) h = refuses
profile_from_json-Gives validate d (Value.double t) h = refuses
profile_from_json-Gives validate d (Value.str t) h = refuses
profile_from_json-Gives validate d (Value.array t) h = refuses
profile_from_json-Gives validate d (Value.object ms) h =
    let at = λ (key : String). find_member (codes key) ms in
    let memory_node = find_member-IsNode (d + 1) (codes "virtual_memory") ms h.1.1 in
    bind-Gives _ (Any-Gives (refuse_if (not (validate (Value.object ms))) Failure.schema_violation))
      (λ u a. bind-Gives _ (Any-Gives (required_string (at "schema"))) (λ schema a.
        bind-Gives _
          (Any-Gives
            (refuse_if (not (same_bytes schema profile_schema)) Failure.unsupported_schema))
          (λ u a. bind-Gives _ (Any-Gives (required (at "origin"))) (λ origin_node a.
            bind-Gives _ (Any-Gives (named origin_table origin_node)) (λ origin a.
              bind-Gives _ (Any-Gives (optional_string (at "profile_name"))) (λ name a.
                bind-Gives _ (Any-Gives (read_platform (at "platform"))) (λ platform a.
                  bind-Gives _ (memory_object-Gives (d + 1) (at "virtual_memory") memory_node)
                    (λ memory all.
                      bind-Gives _ (read_memory-Gives (d + 1 + 1) memory all) (λ vm consistent.
                        bind-Gives _ (Any-Gives (check_run (at "probe_run"))) (λ u a.
                          bind-Gives _ (Any-Gives (check_strings (at "notes")))
                            (λ u a. gives consistent)))))))))))

-- A profile that was read from any text is consistent, whatever the validator of the schema lets through.
pub profile_from_json-IsConsistent :
    (validate : Value → Bool) (text : Bytes) (v : Value) (p : EnvironmentProfile)
    → parse text ≡ ParseResult.value v
    → profile_from_json validate v ≡ Outcome.ok p
    → IsConsistent p.vm
profile_from_json-IsConsistent validate text v p h e =
    Gives-at p (profile_from_json-Gives validate 0 v (parsed-IsValue text v h)) e
