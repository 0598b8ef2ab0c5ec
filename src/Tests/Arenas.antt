-- ===== src/Tests/Arenas.antt =====
-- The theorems about arenas at a small arena whose third page is refused.
use runtime_code_skeptic.Base.{◌+◌, ◌≡◌, refl, false, ◌&&◌, if◌then◌else◌, leb, ltb, arith}
use runtime_code_skeptic.Arena.{ArenaPlacement, ArenaProbe, ArenaWalk, walk_arena_adaptive}
use runtime_code_skeptic.Arena.Blocks.{Walked}
use runtime_code_skeptic.Arena.Coverage.{walk_arena_adaptive-Walked}
use runtime_code_skeptic.Arena.Budget.{walk_arena_adaptive-budget}

-- A host that places every block of pages but those with the third page in them.
abbrev third_page : ArenaProbe
third_page = record {
  place = λ attempt base size.
      if leb base 8192 && ltb 8192 (base + size)
      then ArenaPlacement.refused
      else ArenaPlacement.placed;
  describe = λ attempt base. record { covers = false; text = "" };
}

abbrev four_pages : ArenaWalk
four_pages = walk_arena_adaptive 0 16384 4096 16384 8 third_page

walk_arena_adaptive-budget_example : four_pages.budget_exhausted ≡ false
walk_arena_adaptive-budget_example =
    walk_arena_adaptive-budget 0 16384 4096 16384 8 third_page (omega arith) (omega arith)
      (omega arith) refl refl refl (omega arith)

four_pages_fine : four_pages.budget_exhausted ≡ false
four_pages_fine =
    walk_arena_adaptive-budget 0 16384 4096 16384 8 third_page (omega arith) (omega arith)
      (omega arith) refl refl refl (omega arith)

walk_arena_adaptive-Walked_example : Walked 0 16384 four_pages.available four_pages.unavailable
walk_arena_adaptive-Walked_example =
    walk_arena_adaptive-Walked 0 16384 4096 16384 8 third_page (omega arith) (omega arith)
      (omega arith) refl refl refl four_pages_fine
