-- ===== src/Document/Names.antt =====
-- The enumerations of include/runtimeskeptic/vm/profile.hpp with their names in src/vm/profile.cpp.
use Prim.Native.String.{String}
use runtime_code_skeptic.Base.{List, [], ◌∷◌}
use runtime_code_skeptic.Profile.{
  Architecture, ReserveCommitModel, BeyondEofBehavior, ProfileOrigin,
}

pub data OperatingSystem : Type 0 where
  linux macos windows other unknown : OperatingSystem

pub data TranslationMode : Type 0 where
  none rosetta2 wow64 qemu_user other unknown : TranslationMode

abbrev pub os_table : List (String × OperatingSystem)
os_table =
    ("linux", OperatingSystem.linux)
    ∷ ("macos", OperatingSystem.macos)
    ∷ ("windows", OperatingSystem.windows)
    ∷ ("other", OperatingSystem.other)
    ∷ ("unknown", OperatingSystem.unknown)
    ∷ []

abbrev pub arch_table : List (String × Architecture)
arch_table =
    ("x86_64", Architecture.x86_64)
    ∷ ("aarch64", Architecture.aarch64)
    ∷ ("riscv64", Architecture.riscv64)
    ∷ ("x86", Architecture.x86)
    ∷ ("arm", Architecture.arm)
    ∷ ("other", Architecture.other)
    ∷ ("unknown", Architecture.unknown)
    ∷ []

abbrev pub translation_table : List (String × TranslationMode)
translation_table =
    ("none", TranslationMode.none)
    ∷ ("rosetta2", TranslationMode.rosetta2)
    ∷ ("wow64", TranslationMode.wow64)
    ∷ ("qemu_user", TranslationMode.qemu_user)
    ∷ ("other", TranslationMode.other)
    ∷ ("unknown", TranslationMode.unknown)
    ∷ []

abbrev pub reserve_commit_table : List (String × ReserveCommitModel)
reserve_commit_table =
    ("posix_lazy", ReserveCommitModel.posix_lazy)
    ∷ ("windows_reserve_commit", ReserveCommitModel.windows_reserve_commit)
    ∷ ("unknown", ReserveCommitModel.unknown)
    ∷ []

abbrev pub beyond_eof_table : List (String × BeyondEofBehavior)
beyond_eof_table =
    ("sigbus", BeyondEofBehavior.sigbus)
    ∷ ("error", BeyondEofBehavior.error)
    ∷ ("zero_fill", BeyondEofBehavior.zero_fill)
    ∷ ("unknown", BeyondEofBehavior.unknown)
    ∷ []

abbrev pub origin_table : List (String × ProfileOrigin)
origin_table =
    ("measured", ProfileOrigin.measured)
    ∷ ("hand_authored_fixture", ProfileOrigin.hand_authored_fixture)
    ∷ ("synthetic", ProfileOrigin.synthetic)
    ∷ ("unknown", ProfileOrigin.unknown)
    ∷ []
