-- ===== src/Profile.antt =====
-- include/runtimeskeptic/vm/profile.hpp and the queries of src/vm/profile.cpp: what a host was
-- measured to provide. Names, versions, warnings and notes are prose and are left out.
pub mod Query
use runtime_code_skeptic.Base.{ℕ, ltb, Bool, List, [], ◌∷◌, Option, none, some, if◌then◌else◌}
use runtime_code_skeptic.Evidence.{EvidenceClass, SupportLevel}
use runtime_code_skeptic.Fact
use runtime_code_skeptic.Fact.{Fact}
use runtime_code_skeptic.Range.{AddressRange, ClassifiedRange, empty, contains, intersects}

pub data Architecture : Type 0 where
  x86_64 aarch64 riscv64 x86 arm other unknown : Architecture

pub data ReserveCommitModel : Type 0 where
  posix_lazy windows_reserve_commit unknown : ReserveCommitModel

pub data BeyondEofBehavior : Type 0 where
  sigbus error zero_fill unknown : BeyondEofBehavior

pub data ProfileOrigin : Type 0 where
  measured hand_authored_fixture synthetic unknown : ProfileOrigin

unfoldable pub pointer_width_bits : Architecture → ℕ
pointer_width_bits Architecture.x86_64 = 64
pointer_width_bits Architecture.aarch64 = 64
pointer_width_bits Architecture.riscv64 = 64
pointer_width_bits Architecture.x86 = 32
pointer_width_bits Architecture.arm = 32
pointer_width_bits Architecture.other = 0
pointer_width_bits Architecture.unknown = 0

pub record ProtectionModel : Type 0 where
  pub write_execute_simultaneous : Fact Bool
  pub write_then_execute_transition : Fact Bool
  pub anonymous_executable_mapping : Fact Bool
  pub jit_entitlement_required : Fact Bool

pub record VirtualMemoryModel : Type 0 where
  pub page_size : Fact ℕ
  pub allocation_granularity : Fact ℕ
  pub min_map_address : Fact ℕ
  pub max_user_address : Fact ℕ
  pub max_single_reservation : Fact ℕ
  pub max_single_reservation_hinted : Fact ℕ
  pub anonymous_mapping_supported : Fact Bool
  pub exact_mapping : Fact SupportLevel
  pub hinted_mapping_may_relocate : Fact Bool
  pub fixed_noreplace_available : Fact Bool
  pub reserve_commit_model : Fact ReserveCommitModel
  pub file_map_beyond_eof : Fact BeyondEofBehavior
  pub protection : ProtectionModel
  pub unavailable_ranges : List ClassifiedRange
  pub available_ranges : List ClassifiedRange

pub record EnvironmentProfile : Type 0 where
  pub origin : ProfileOrigin
  pub process_arch : Architecture
  pub vm : VirtualMemoryModel

unfoldable pub process_pointer_width : EnvironmentProfile → ℕ
unfolding pointer_width_bits
process_pointer_width profile = pointer_width_bits profile.process_arch

-- The reason of a verdict is prose and is left out.
pub record RangeVerdict : Type 0 where
  pub level : SupportLevel
  pub evidence : EvidenceClass
  pub conflicting_range : Option AddressRange

-- The early return of a loop: the first range that passes the test.
unfoldable pub find_range : (AddressRange → Bool) → List ClassifiedRange → Option ClassifiedRange
find_range test [] = none
find_range test (r ∷ rest) = if test r.range then some r else find_range test rest

-- Whether a start lies below the lowest mappable address, if that is known.
unfoldable pub is_below_minimum : VirtualMemoryModel → ℕ → Bool
is_below_minimum vm start = elim vm.min_map_address [
  | Fact.established low e ↦ ltb start low
  | Fact.unknown ↦ Bool.false
]

-- Whether an end lies past the highest user address, if that is known.
unfoldable pub is_above_user_space : VirtualMemoryModel → ℕ → Bool
is_above_user_space vm stop = elim vm.max_user_address [
  | Fact.established top e ↦ ltb top stop
  | Fact.unknown ↦ Bool.false
]

abbrev pub verdict : SupportLevel → EvidenceClass → RangeVerdict
verdict level class = record { level = level; evidence = class; conflicting_range = none }

-- Steps 3 and 4: a range that contains the request, or nothing established.
unfoldable pub query_available : VirtualMemoryModel → AddressRange → RangeVerdict
unfolding find_range contains
query_available vm range = elim (find_range (λ r. contains r range) vm.available_ranges) [
  | some r ↦ verdict SupportLevel.supported r.evidence
  | none ↦ verdict SupportLevel.unknown EvidenceClass.unknown
]

-- Step 2: a range that intersects the request.
unfoldable pub query_unavailable : VirtualMemoryModel → AddressRange → RangeVerdict
unfolding find_range intersects query_available
query_unavailable vm range = elim (find_range (λ r. intersects r range) vm.unavailable_ranges) [
  | some r ↦ record {
    level = SupportLevel.unsupported;
    evidence = r.evidence;
    conflicting_range = some r.range;
  }
  | none ↦ query_available vm range
]

unfoldable pub query_range : EnvironmentProfile → AddressRange → RangeVerdict
unfolding empty is_below_minimum is_above_user_space query_unavailable Fact.evidence
query_range profile range =
    if empty range
    then verdict SupportLevel.unsupported EvidenceClass.specified_guarantee
    else if is_below_minimum profile.vm range.start
    then verdict SupportLevel.unsupported (Fact.evidence profile.vm.min_map_address)
    else if is_above_user_space profile.vm range.stop
    then verdict SupportLevel.unsupported (Fact.evidence profile.vm.max_user_address)
    else query_unavailable profile.vm range
