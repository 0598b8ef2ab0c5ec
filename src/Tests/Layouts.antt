-- ===== src/Tests/Layouts.antt =====
-- The regions of a small process, and the window that its image covers.
use runtime_code_skeptic.Base.{◌+◌, ltb, true, false, none, some, Returns, ◌≡◌, refl, if◌then◌else◌}
use runtime_code_skeptic.Regions.{RegionQuery, classify_window, region_at_is_occupied}
use runtime_code_skeptic.Regions.Blame.{IsBlamed, classify_window-IsBlamed}

-- Free, then an image in two parts, then free.
abbrev layout : RegionQuery
layout calls at =
    if ltb at 0x4000
    then some (record { base = 0; size = 0x4000; free = true })
    else if ltb at 0x5000
    then some (record { base = 0x4000; size = 0x1000; free = false })
    else if ltb at 0x6000
    then some (record { base = 0x5000; size = 0x1000; free = false })
    else some (record { base = 0x6000; size = 0xFFFF0000; free = true })

image_is_found :
    classify_window 0x1000 0x8000 layout ≡ some (record { start = 0x4000; size = 0x2000 })
unfolding classify_window
image_is_found = refl

free_window_is_not_covered : classify_window 0x7000 0x1000 layout ≡ none
unfolding classify_window
free_window_is_not_covered = refl

inside_is_occupied : region_at_is_occupied 0x4800 layout ≡ true
unfolding region_at_is_occupied
inside_is_occupied = refl

classify_window-IsBlamed_example :
    Returns (IsBlamed layout 0x1000 (0x1000 + 0x8000)) Unit (classify_window 0x1000 0x8000 layout)
classify_window-IsBlamed_example = classify_window-IsBlamed 0x1000 0x8000 layout
