-- ===== src/Profile/Query.antt =====
-- What a verdict of `EnvironmentProfile::query_range` means.
use mathlib.Core.Path.{subst}
use runtime_code_skeptic.Base.{
  ◌≤◌, ◌<◌, ap, sym, ◌∙◌, ◌≢◌, ℕ, ◌≡◌, ◌↔◌, ◌⊎◌, inl, inr, Bool, true, false, List, [], ◌∷◌, none,
  some, arith, All, At, All-At, All-imp, first, later, Bool-cases, Option-cases,
}
use runtime_code_skeptic.Evidence.{EvidenceClass, SupportLevel}
use runtime_code_skeptic.Fact
use runtime_code_skeptic.Fact.{Fact}
use runtime_code_skeptic.Range.{AddressRange, ClassifiedRange, empty, contains, intersects}
use runtime_code_skeptic.Range.Sets.{InRange, contains_iff, intersects_iff}
use runtime_code_skeptic.Profile.{
  EnvironmentProfile, VirtualMemoryModel, RangeVerdict, find_range, is_below_minimum,
  is_above_user_space, query_available, query_unavailable, query_range,
}

find_range-some :
    (test : AddressRange → Bool) (l : List ClassifiedRange) (r : ClassifiedRange)
    → find_range test l ≡ some r
    → At r l × (test r.range ≡ true)
unfolding find_range
find_range-some test [] r h = absurd (cc)
find_range-some test (x ∷ l) r h = elim (Bool-cases (test x.range)) [
  | inl hit ↦
      let same : some x ≡ some r = rw hit at h in
      let e : x ≡ r = cc in subst (λ y. At y (x ∷ l) × (test y.range ≡ true)) e (first, hit)
  | inr miss ↦ let (m, e) = find_range-some test l r (rw miss at h) in (later m, e)
]

find_range-none :
    (test : AddressRange → Bool) (l : List ClassifiedRange)
    → find_range test l ≡ none
    → All (λ r. test r.range ≡ false) l
unfolding find_range
find_range-none test [] h = tt
find_range-none test (x ∷ l) h = elim (Bool-cases (test x.range)) [
  | inl hit ↦ absurd (ground arith)
  | inr miss ↦ (miss, find_range-none test l (rw miss at h))
]

-- Why a range is available: it is not empty, it keeps the known bounds, none of its addresses lies
-- in a range that is recorded as unavailable, and all of them lie in one that is recorded as
-- available, with that evidence.
pub record IsAvailable (vm : VirtualMemoryModel) (range : AddressRange) (class : EvidenceClass)
    : Type 0 where
  pub not_empty : range.start < range.stop
  pub above_minimum : Fact.value_or vm.min_map_address 0 ≤ range.start
  pub in_user_space :
      (vm.max_user_address ≡ Fact.unknown)
      ⊎ ((top : ℕ) × (e : EvidenceClass) × (vm.max_user_address ≡ Fact.established top e)
          × (range.stop ≤ top))
  pub apart : All (λ r. (a : ℕ) → ¬ (InRange a r.range × InRange a range)) vm.unavailable_ranges
  pub inside :
      (r : ClassifiedRange) × At r vm.available_ranges
      × ((a : ℕ) → InRange a range → InRange a r.range)
      × (r.evidence ≡ class)

-- Why a range is unavailable: it is empty, it starts below the known minimum, it ends past the known
-- user space, or one of its addresses lies in a range that is recorded as unavailable.
abbrev pub HasObstacle : VirtualMemoryModel → AddressRange → Type 0
HasObstacle vm range =
    (range.stop ≤ range.start)
    ⊎ ((low : ℕ) × (e : EvidenceClass) × (vm.min_map_address ≡ Fact.established low e)
        × (range.start < low))
    ⊎ ((top : ℕ) × (e : EvidenceClass) × (vm.max_user_address ≡ Fact.established top e)
        × (top < range.stop))
    ⊎ ((r : ClassifiedRange) × At r vm.unavailable_ranges
        × ((a : ℕ) × InRange a r.range × InRange a range))

below_minimum :
    (vm : VirtualMemoryModel) (start : ℕ)
    → is_below_minimum vm start ≡ true
    → (low : ℕ) × (e : EvidenceClass) × (vm.min_map_address ≡ Fact.established low e)
      × (start < low)
unfolding is_below_minimum
below_minimum vm start h = ground arith

above_user_space :
    (vm : VirtualMemoryModel) (stop : ℕ)
    → is_above_user_space vm stop ≡ true
    → (top : ℕ) × (e : EvidenceClass) × (vm.max_user_address ≡ Fact.established top e)
      × (top < stop)
unfolding is_above_user_space
above_user_space vm stop h = ground arith

not_below_minimum :
    (vm : VirtualMemoryModel) (start : ℕ)
    → is_below_minimum vm start ≡ false
    → Fact.value_or vm.min_map_address 0 ≤ start
unfolding is_below_minimum Fact.value_or
not_below_minimum vm start h = ground arith

not_above_user_space :
    (vm : VirtualMemoryModel) (stop : ℕ)
    → is_above_user_space vm stop ≡ false
    → (vm.max_user_address ≡ Fact.unknown)
      ⊎ ((top : ℕ) × (e : EvidenceClass) × (vm.max_user_address ≡ Fact.established top e)
          × (stop ≤ top))
unfolding is_above_user_space
not_above_user_space vm stop h = ground arith

query_available-supported :
    (vm : VirtualMemoryModel) (range : AddressRange)
    → (query_available vm range).level ≡ SupportLevel.supported
    → (r : ClassifiedRange) × At r vm.available_ranges
      × ((a : ℕ) → InRange a range → InRange a r.range)
      × (r.evidence ≡ (query_available vm range).evidence)
unfolding query_available
query_available-supported vm range h =
    elim (Option-cases (find_range (λ r. contains r range) vm.available_ranges)) [
      | inl nothing ↦ absurd (ground arith)
      | inr (r, found) ↦
          let (m, e) = find_range-some (λ r. contains r range) vm.available_ranges r found in
          (r, m, ((contains_iff r.range range).0 e).1, ground arith)
    ]

query_available-not_unsupported :
    (vm : VirtualMemoryModel) (range : AddressRange)
    → (query_available vm range).level ≢ SupportLevel.unsupported
unfolding query_available
query_available-not_unsupported vm range = ground arith

-- Either a recorded range stands in the way, or step 2 passes the question on.
query_unavailable-cases :
    (vm : VirtualMemoryModel) (range : AddressRange)
    → ((r : ClassifiedRange) × At r vm.unavailable_ranges
        × (intersects r.range range ≡ true)
        × (query_unavailable vm range ≡ record {
          level = SupportLevel.unsupported;
          evidence = r.evidence;
          conflicting_range = some r.range;
        }))
      ⊎ (All (λ r. intersects r.range range ≡ false) vm.unavailable_ranges
          × (query_unavailable vm range ≡ query_available vm range))
unfolding query_unavailable
query_unavailable-cases vm range =
    elim (Option-cases (find_range (λ r. intersects r range) vm.unavailable_ranges)) [
      | inl nothing ↦ inr (
        find_range-none (λ r. intersects r range) vm.unavailable_ranges nothing,
        rw (nothing, query_unavailable),
      )
      | inr (r, found) ↦
          let (m, e) = find_range-some (λ r. intersects r range) vm.unavailable_ranges r found in
          inl (r, m, e, rw (found, query_unavailable))
    ]

no_common_address :
    (vm : VirtualMemoryModel) (range : AddressRange)
    → All (λ r. intersects r.range range ≡ false) vm.unavailable_ranges
    → All (λ r. (a : ℕ) → ¬ (InRange a r.range × InRange a range)) vm.unavailable_ranges
no_common_address vm range =
    All-imp (λ r e a both. cc (e, (intersects_iff r.range range).1 (a, both.0, both.1)))
      vm.unavailable_ranges

query_unavailable-supported :
    (vm : VirtualMemoryModel) (range : AddressRange)
    → (query_unavailable vm range).level ≡ SupportLevel.supported
    → All (λ r. intersects r.range range ≡ false) vm.unavailable_ranges
      × ((query_unavailable vm range) ≡ query_available vm range)
query_unavailable-supported vm range h = elim (query_unavailable-cases vm range) [
  | inl (r, m, e, same) ↦ absurd (cc (ap (λ (v : RangeVerdict). v.level) same))
  | inr rest ↦ rest
]

query_unavailable-unsupported :
    (vm : VirtualMemoryModel) (range : AddressRange) (r : ClassifiedRange)
    → At r vm.unavailable_ranges
    → intersects r.range range ≡ true
    → (query_unavailable vm range).level ≡ SupportLevel.unsupported
query_unavailable-unsupported vm range r m hit = elim (query_unavailable-cases vm range) [
  | inl (s, n, e, same) ↦ ap (λ (v : RangeVerdict). v.level) same
  | inr (apart, same) ↦ absurd (cc (All-At (λ r. intersects r.range range ≡ false) m apart, hit))
]

-- Where the verdict on a range is SUPPORTED, the range is not empty, starts no lower than the minimum and ends
-- no higher than the user space, where these are known, shares no address with a range that is recorded as
-- unavailable, and lies in one that is recorded as available, whose evidence is the verdict's.
pub query_range-IsAvailable :
    (p : EnvironmentProfile) (range : AddressRange)
    → (query_range p range).level ≡ SupportLevel.supported
    → IsAvailable p.vm range (query_range p range).evidence
unfolding query_range empty
query_range-IsAvailable p range h =
    let on : query_range p range ≡ query_unavailable p.vm range = ground arith in
    let level : (query_unavailable p.vm range).level ≡ SupportLevel.supported = rw on at h in
    let (apart, same) = query_unavailable-supported p.vm range level in
    let (r, m, inside, class) = query_available-supported p.vm range (rw same at level) in
    record {
      not_empty = ground arith;
      above_minimum = not_below_minimum p.vm range.start (ground arith);
      in_user_space = not_above_user_space p.vm range.stop (ground arith);
      apart = no_common_address p.vm range apart;
      inside = (r, m, inside, class ∙ ap (λ (v : RangeVerdict). v.evidence) (sym (on ∙ same)));
    }

-- A verdict is UNSUPPORTED exactly when the range is empty, passes a known bound, or has an address
-- in common with a range that is recorded as unavailable.
pub query_range-unsupported_iff :
    (p : EnvironmentProfile) (range : AddressRange)
    → ((query_range p range).level ≡ SupportLevel.unsupported) ↔ HasObstacle p.vm range
unfolding query_range empty is_below_minimum is_above_user_space
query_range-unsupported_iff p range = (
  λ h. elim (Bool-cases (empty range)) [
    | inl e ↦ inl (ground arith)
    | inr not_empty ↦ elim (Bool-cases (is_below_minimum p.vm range.start)) [
      | inl b ↦ inr (inl (below_minimum p.vm range.start b))
      | inr not_below ↦ elim (Bool-cases (is_above_user_space p.vm range.stop)) [
        | inl a ↦ inr (inr (inl (above_user_space p.vm range.stop a)))
        | inr not_above ↦ elim (query_unavailable-cases p.vm range) [
          | inl (r, m, e, same) ↦ inr (inr (inr (r, m, (intersects_iff r.range range).0 e)))
          | inr (apart, same) ↦ absurd (query_available-not_unsupported p.vm range (ground arith))
        ]
      ]
    ]
  ],
  λ h. elim h [
    | inl e ↦ ground arith
    | inr (inl (low, e, known, b)) ↦ ground arith
    | inr (inr (inl (top, e, known, a))) ↦ ground arith
    | inr (inr (inr (r, m, common))) ↦
        let u =
          query_unavailable-unsupported p.vm range r m ((intersects_iff r.range range).1 common) in
        ground arith
  ],
)
