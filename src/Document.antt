-- ===== src/Document.antt =====
-- What the readers of documents share (include/runtimeskeptic/core/fact.hpp, src/vm/address_range.cpp,
-- src/vm/profile.cpp): a value or a failure, the fields of an object, and the tables of names.
pub mod Facts
pub mod Payloads
pub mod Ranges
pub mod RangeTexts
pub mod Sound
pub mod RangesSound
pub mod Consistent
pub mod Requirements
pub mod Bundles
pub mod Analyzable
pub mod Entries
pub mod Kept
pub mod Names
pub mod Reader
use Prim.Native.String.{String}
use runtime_code_skeptic.Base.{
  ℕ, Bool, true, false, List, [], ◌∷◌, ◌≡◌, refl, Option, none, some, any, if◌then◌else◌, Bytes,
  codes, same_bytes,
}
use runtime_code_skeptic.Json.{Value, Signed, Items, Members, no_items, item, no_members, member}

-- Why a document was refused. The text of the message is left out.
pub data Failure : Type 0 where
  wrong_type unrecognized_value missing negative bad_address reversed_range unknown_range impossible
        contradictory_bounds schema_violation unsupported_schema :
      Failure
  unexpected_field : Bytes → Failure
  in_field : Bytes → Failure → Failure

pub data Outcome (A : Type 0) : Type 0 where
  ok : A → Outcome A
  refused : Failure → Outcome A

infixl 5 ◌>>=◌ ◌>>◌
abbrev pub ◌>>=◌ : {A B : Type 0} → Outcome A → (A → Outcome B) → Outcome B
Outcome.ok a >>= f = f a
Outcome.refused e >>= f = Outcome.refused e

abbrev pub ◌>>◌ : {B : Type 0} → Outcome (Unit {0}) → Outcome B → Outcome B
m >> k = m >>= λ _. k

-- A failure with the name of the field that it is about.
abbrev pub inside : {A : Type 0} → Bytes → Outcome A → Outcome A
inside field (Outcome.ok a) = Outcome.ok a
inside field (Outcome.refused e) = Outcome.refused (Failure.in_field field e)

-- Refuses, if the test holds.
abbrev pub refuse_if : Bool → Failure → Outcome (Unit {0})
refuse_if true e = Outcome.refused e
refuse_if false e = Outcome.ok tt

-- The entry of a table with the name.
unfoldable pub entry : {E : Type 0} → List (String × E) → Bytes → Option E
entry [] s = none
entry ((name, value) ∷ table) s =
    let later = entry table s in if same_bytes (codes name) s then some value else later

abbrev pub or_refuse : {A : Type 0} → Option A → Failure → Outcome A
or_refuse (some a) e = Outcome.ok a
or_refuse none e = Outcome.refused e

-- The loop over the keys of an object: each is one of the names.
unfoldable pub check_keys : List String → Members → Outcome (Unit {0})
check_keys names no_members = Outcome.ok tt
check_keys names (member key v rest) =
    let later = check_keys names rest in
    if any (λ name. same_bytes (codes name) key) names
    then later
    else Outcome.refused (Failure.unexpected_field key)

-- A string that may be missing.
unfoldable pub optional_string : Option Value → Outcome Bytes
optional_string none = Outcome.ok []
optional_string (some (Value.str s)) = Outcome.ok s
optional_string (some v) = Outcome.refused Failure.wrong_type

-- A string that must be there.
unfoldable pub required_string : Option Value → Outcome Bytes
required_string (some (Value.str s)) = Outcome.ok s
required_string v = Outcome.refused Failure.missing

-- A string from a table of names.
unfoldable pub named : {E : Type 0} → List (String × E) → Value → Outcome E
unfolding entry
named table (Value.str s) = or_refuse (entry table s) Failure.unrecognized_value
named table v = Outcome.refused Failure.unrecognized_value
