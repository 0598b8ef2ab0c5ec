-- ===== src/Analyzer/Rules/Memory.antt =====
-- The rules about committing, pointer widths, files and retries: RS-VM-0012, 0013, 0015, 0017 and
-- 0018.
use runtime_code_skeptic.Base.{
  ℕ, ◌-◌, ◌%◌, ◌+◌, ◌^◌, ltb, leb, Bool, false, not, ◌&&◌, ◌||◌, List, [], ◌∷◌, Option, some, none,
  ◌==◌, if◌then◌else◌,
}
use runtime_code_skeptic.Evidence.{EvidenceClass, Confidence, SupportLevel, Layer}
use runtime_code_skeptic.Fact
use runtime_code_skeptic.Fact.{Fact}
use runtime_code_skeptic.Finding.{RemediationClass}
use runtime_code_skeptic.Finding.Ids
use runtime_code_skeptic.Analyzer.Engine.{Context, Effect, step, finding}
use runtime_code_skeptic.Range.{uint64_max}
use runtime_code_skeptic.Profile.{ReserveCommitModel, BeyondEofBehavior, process_pointer_width}
use runtime_code_skeptic.Requirement.{FallbackKind, EofAccessExtent, range, permits}
use runtime_code_skeptic.Analyzer.Engine.{
  AnalysisResult, established_impossibility, proven_unsupported_evidence,
}
use runtime_code_skeptic.Analyzer.Rules.Size.{unknown_fact}

unfoldable pub rule_reserve_commit : Context → List Effect
rule_reserve_commit c =
    if not c.requirement.request.reserve_then_commit
    then []
    else if c.requirement.request.commit_is_checked_call
    then []
    else elim c.profile.vm.reserve_commit_model [
      | Fact.unknown ↦ []
      | Fact.established ReserveCommitModel.posix_lazy class ↦
          Effect.emits (
            finding c Ids.reserve_commit_semantic_mismatch Confidence.proven
              SupportLevel.conditionally_supported false (step Layer.operating_system class ∷ [])
              (RemediationClass.reserve_address_space_earlier ∷ []))
          ∷ []
      | Fact.established model class ↦ []
    ]

-- The highest address that the request could involve, if anything bounds it.
unfoldable pub highest_address : Context → Option ℕ
unfolding range
highest_address c = elim (range c.requirement.request) [
  | some r ↦ some r.stop
  | none ↦ elim c.profile.vm.max_user_address [
    | Fact.established top class ↦ some top
    | Fact.unknown ↦ none
  ]
]

-- A program that checks the address it got back does not truncate.
unfoldable pub rejects_bad_addresses : Context → Bool
unfolding permits
rejects_bad_addresses c =
    c.requirement.request.validates_returned_address
    || permits c.requirement FallbackKind.relocate
    || c.requirement.assumptions.retries_on_failure

-- The width of the pointer storage against the highest address.
unfoldable pub truncation : Context → ℕ → EvidenceClass → List Effect
unfolding highest_address rejects_bad_addresses
truncation c width class = if width == 0 || leb 64 width then [] else elim (highest_address c) [
  | none ↦ []
  | some highest ↦
      if leb highest (2 ^ width)
      then []
      else Effect.emits (
          finding c Ids.pointer_truncation Confidence.proven
            (if rejects_bad_addresses c
              then SupportLevel.conditionally_supported
              else SupportLevel.unsupported)
            (not (rejects_bad_addresses c))
            (step Layer.application class
              ∷ step Layer.analyzer EvidenceClass.specified_guarantee
              ∷ [])
            (RemediationClass.widen_pointer_storage ∷ RemediationClass.choose_different_base_address
              ∷ []))
        ∷ []
]

unfoldable pub rule_pointer_truncation : Context → List Effect
unfolding truncation process_pointer_width
rule_pointer_truncation c = elim c.requirement.assumptions.pointer_storage_width_bits [
  | some width ↦ truncation c width c.requirement.assumption_evidence
  | none ↦
      if not (process_pointer_width c.profile == 0)
      then truncation c (process_pointer_width c.profile) EvidenceClass.specified_guarantee
      else []
]

-- `offset + size`, saturated at the end of the 64-bit range.
unfoldable pub mapping_end : Context → ℕ
mapping_end c =
    if ltb (uint64_max - request.size) request.file_offset
    then uint64_max
    else request.file_offset + request.size
  where
    open c.requirement use {request}

-- Only the zero-filled rest of the file's last page is read, and there is one.
unfoldable pub reads_final_partial_page : Context → ℕ → Bool
unfolding Fact.value_or
reads_final_partial_page c file_length =
    let page = Fact.value_or c.profile.vm.page_size 0 in
    elim c.requirement.request.eof_access_extent [
      | EofAccessExtent.within_final_partial_page ↦ ltb 0 page && not (file_length % page == 0)
      | EofAccessExtent.whole_page_past_end ↦ false
    ]

abbrev pub eof_impact : BeyondEofBehavior → SupportLevel
eof_impact BeyondEofBehavior.zero_fill = SupportLevel.conditionally_supported
eof_impact _ = SupportLevel.unsupported

-- The mapping passes the end of the file on a host whose behaviour there is known.
unfoldable pub access_past_end : Context → ℕ → BeyondEofBehavior → EvidenceClass → List Effect
unfolding reads_final_partial_page
access_past_end c file_length behavior class =
    if not c.requirement.request.accesses_beyond_eof
    then []
    else if reads_final_partial_page c file_length
    then Effect.satisfies EvidenceClass.specified_guarantee ∷ []
    else Effect.emits (
        finding c Ids.file_mapping_beyond_eof Confidence.proven (eof_impact behavior) false
          (step Layer.operating_system class ∷ [])
          (RemediationClass.select_different_host_configuration ∷ []))
      ∷ []

unfoldable pub rule_file_mapping_beyond_eof : Context → List Effect
unfolding mapping_end access_past_end unknown_fact
rule_file_mapping_beyond_eof c =
    if not c.requirement.request.file_backed then [] else elim c.requirement.request.file_length [
      | none ↦ []
      | some file_length ↦
          if leb (mapping_end c) file_length then [] else elim c.profile.vm.file_map_beyond_eof [
            | Fact.unknown ↦ unknown_fact c
            | Fact.established behavior class ↦ access_past_end c file_length behavior class
          ]
    ]

-- It runs last: it reads whether another rule established an impossibility.
unfoldable pub rule_retry_of_permanent_error : Context → AnalysisResult → List Effect
unfolding established_impossibility proven_unsupported_evidence
rule_retry_of_permanent_error c result =
    if not c.requirement.assumptions.retries_on_failure
    then []
    else if not (established_impossibility result)
    then []
    else Effect.emits (
        finding c Ids.permanent_error_retried Confidence.proven SupportLevel.unsupported false
          (step Layer.analyzer (proven_unsupported_evidence result) ∷ [])
          (RemediationClass.treat_error_as_permanent ∷ []))
      ∷ []
