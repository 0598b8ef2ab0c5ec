-- ===== src/Lib.antt =====
-- RuntimeSkeptic decides whether a host can give a program the virtual memory that the program
-- asks for. A requirement document says what the program asks, a profile says what a probe
-- measured on the host, and the analyzer compares the two by rules. Its result is a verdict, and
-- findings that carry a severity, a confidence and a chain of evidence. This library models that
-- decision and the reader and the canonical writer of JSON texts.
--
-- Evidence: include/runtimeskeptic/core/evidence.hpp and src/core/evidence.cpp. The enumerators
--   keep the numeric order of the source (`class_rank` and its companions are the casts to int).
--   Evidence/Order is about the order and the chains, Evidence/Names about the tables of names.
-- Range: include/runtimeskeptic/vm/address_range.hpp and src/vm/address_range.cpp. Addresses are
--   natural numbers, and a theorem says where they have to fit in 64 bits; `~mask` is
--   `complement64`. Range/Sets reads the operations as sets of addresses, Range/Align and
--   Range/Bits are about the arithmetic of alignment, Range/Collapse about
--   `collapse_contained_ranges`.
-- Fact: include/runtimeskeptic/core/fact.hpp.
-- Profile: include/runtimeskeptic/vm/profile.hpp and src/vm/profile.cpp, the data of a profile
--   and `EnvironmentProfile::query_range`. Profile/Query is about its verdicts.
-- Requirement: include/runtimeskeptic/vm/requirement.hpp and src/vm/requirement.cpp.
-- Finding: include/runtimeskeptic/vm/finding.hpp and src/vm/finding.cpp. An id RS-VM-n is the
--   number n, so that the order of the ids is the order of their texts.
-- Analyzer: src/vm/analyzer.cpp. A rule returns the list of its effects (`emit`, `satisfied`, a
--   raised verdict, a limitation) in the order of the source, and `perform` carries them out on the
--   result. Analyzer/Engine has the state and these steps, Analyzer/Rules the rules in six files,
--   Analyzer/Run the order of the rules, the start and the sorting. Analyzer/Effects,
--   Analyzer/Summary and Analyzer/WellFormed have the lemmas on all rules; Analyzer/Findings,
--   Analyzer/Verdict, Analyzer/Supported, Analyzer/Refused, Analyzer/Sorted and Analyzer/Silence
--   have the theorems, and Analyzer/Reporting what Analyzer/Silence needs of the rules.
-- Impact: include/runtimeskeptic/vm/impact.hpp and src/vm/impact.cpp, the comparison of the
--   verdicts of a contract on two hosts. Impact/Change is about the change of the contract,
--   Impact/Sets about the ids that appear and disappear.
-- Arena: include/runtimeskeptic/probe/arena_walk.hpp and src/probe/arena_walk.cpp, the bounds of
--   an arena and `walk_arena_adaptive`. The callbacks `place` and `describe` are a parameter, and
--   their answers may depend on the number of the attempt. Arena/Bounds is about the bounds,
--   Arena/Leaves and Arena/Blocks about the lists as the walk grows, Arena/Coverage and
--   Arena/Budget about the whole walk. The walk over the blocks has the number of pages for fuel,
--   and the walk over the tiles too, since a block or a tile has at least one page.
-- Base: names of the libraries, Boolean tests, lists, and a stable insertion sort that stands for
--   `std::stable_sort` and `std::sort`.
-- Tests: sample inputs, their verdicts, and the theorems at these inputs.
--
-- Regions: include/runtimeskeptic/probe/windows_regions.hpp and src/probe/windows_regions.cpp.
--   The query is a parameter, and its answers may depend on the number of the call. The bounds of
--   the two loops are the source's own. Regions/Blame is about the window's verdict.
-- Json: include/runtimeskeptic/core/json.hpp and src/core/json.cpp. A text is the list of its
--   bytes, and a position is what is left of the text, so that `pos_` is a difference of lengths.
--   Json/Lexer, Json/Parser and Json/Writer are the classes and functions of the source, Json/Hex
--   the addresses as texts. Json/Reads, Json/Numbers and Json/Total are about the reader on any
--   text, Json/Order about the keys of objects, Json/Decimal, Json/Quoted, Json/Written and
--   Json/RoundTrip about written texts, Json/Canonical about both together. The reader's fuel is
--   twice the length of the text and two more: a call of `parse_value` takes at least a byte before
--   the next one, and a turn of a loop over elements or members takes one unit more.
--
-- Document: `fact_from_json` and `Fact::to_json`, `ClassifiedRange::from_json` and `to_json`,
--   `EnvironmentProfile::from_json`, `Requirement::from_json` and `load_requirements`. A reader
--   returns a value or a failure (`error` with its text left out). Document/Facts, Document/Ranges
--   and Document/Reader are the readers and writers, Document/Requirements and Document/Bundles
--   those of src/vm/requirement.cpp, Document/Payloads and Document/RangeTexts are about what is
--   written and read back, Document/Sound, Document/RangesSound and Document/Consistent about the
--   profiles that are let through, Document/Analyzable, Document/Entries and Document/Kept about
--   the requirements. The validators of `schema::`, which the readers call first, are a parameter.
--
-- No other definition needs fuel: the loops run over lists, and every rule runs once.
--
-- Left out: the texts of findings, steps and verdicts; the documents' schemas and hashes; the
-- probes, the runtime monitor and the server, which call the operating system; reports and
-- command lines.
pub mod Base
pub mod Evidence
pub mod Range
pub mod Json
pub mod Document
pub mod Fact
pub mod Profile
pub mod Requirement
pub mod Finding
pub mod Analyzer
pub mod Impact
pub mod Arena
pub mod Regions
pub mod Tests
