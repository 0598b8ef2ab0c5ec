-- ===== src/Tests/Basics.antt =====
-- The theorems about ranges, alignment and evidence at small inputs.
use runtime_code_skeptic.Base.{
  ℕ, ◌≤◌, ◌<◌, ◌-◌, ◌+◌, ◌≡◌, ◌⊎◌, ◌↔◌, false, List, [], ◌∷◌, arith, All, At, Returns, Pairwise,
}
use runtime_code_skeptic.Evidence.{EvidenceClass, EvidenceChain, Layer}
use runtime_code_skeptic.Range.{
  AddressRange, ClassifiedRange, uint64_max, from_base_size, empty, length, intersection,
  collapse_contained_ranges, align_up, align_down,
}
use runtime_code_skeptic.Range.Sets.{InRange, from_base_size_lem, intersection_lem}
use runtime_code_skeptic.Range.Align.{IsPower, IsMultiple, align_up_lem, align_down_lem}
use runtime_code_skeptic.Range.Collapse.{covers, CoveredIn, collapse_lem, collapse_addresses}

abbrev low : AddressRange
low = record { start = 4096; stop = 16384 }

abbrev high : AddressRange
high = record { start = 8192; stop = 32768 }

abbrev inner : AddressRange
inner = record { start = 4096; stop = 8192 }

abbrev recorded : List ClassifiedRange
recorded =
    record { range = inner; evidence = EvidenceClass.measured_capability }
    ∷ record { range = low; evidence = EvidenceClass.measured_capability }
    ∷ []

abbrev chain : EvidenceChain
chain =
    record { layer = Layer.application; evidence = EvidenceClass.statically_inferred }
    ∷ record { layer = Layer.kernel; evidence = EvidenceClass.measured_capability }
    ∷ []

abbrev three_pages : ℕ
three_pages = 12288

from_base_size_lem_example :
    Returns
      (λ r.
        (r.start ≡ 4096)
        × (length r ≡ three_pages)
        × (empty r ≡ false)
        × (4096 + three_pages ≤ uint64_max)
        × (r.stop ≤ uint64_max))
      ((three_pages ≡ 0) ⊎ (uint64_max < 4096 + three_pages))
      (from_base_size 4096 three_pages)
from_base_size_lem_example = from_base_size_lem 4096 three_pages (omega arith)

intersection_lem_example :
    Returns
      (λ t. (empty t ≡ false) × ((a : ℕ) → InRange a t ↔ (InRange a low × InRange a high)))
      ((a : ℕ) → ¬ (InRange a low × InRange a high))
      (intersection low high)
intersection_lem_example = intersection_lem low high

collapse_lem_example :
    let kept = collapse_contained_ranges recorded in
    Pairwise
      (λ x y. (x.range.start ≤ y.range.start) × (covers x y ≡ false) × (covers y x ≡ false))
      kept
    × All (λ k. At k recorded) kept
    × All (CoveredIn kept) recorded
collapse_lem_example = collapse_lem recorded

collapse_addresses_example :
    ((c : ClassifiedRange) × At c recorded × InRange 5000 c.range)
    ↔ ((k : ClassifiedRange) × At k (collapse_contained_ranges recorded) × InRange 5000 k.range)
collapse_addresses_example = collapse_addresses recorded 5000

align_up_lem_example :
    Returns
      (λ r.
        IsPower 4096
        × (5000 + (4096 - 1) ≤ uint64_max)
        × (5000 ≤ r)
        × (r < 5000 + 4096)
        × IsMultiple r 4096)
      (¬ IsPower 4096 ⊎ (uint64_max < 5000 + (4096 - 1)))
      (align_up 5000 4096)
align_up_lem_example = align_up_lem 5000 4096 (omega arith)

align_down_lem_example :
    Returns
      (λ r. IsPower 4096 × (r ≤ 5000) × (5000 < r + 4096) × IsMultiple r 4096)
      (¬ IsPower 4096)
      (align_down 5000 4096)
align_down_lem_example = align_down_lem 5000 4096 (omega arith) (omega arith)
