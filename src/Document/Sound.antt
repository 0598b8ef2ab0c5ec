-- ===== src/Document/Sound.antt =====
-- What the readers of the facts and the ranges of a profile let through.
use Prim.Native.String.{String}
use mathlib.Core.Path.{subst}
use runtime_code_skeptic.Base.{
  ℕ, ◌+◌, ◌≤◌, Bool, true, false, ◌||◌, [], ◌∷◌, ◌≡◌, refl, Option, none, some, if-intro, Returns,
  Bytes, codes, same_bytes, arith,
}
use runtime_code_skeptic.Evidence.{EvidenceClass}
use runtime_code_skeptic.Evidence.Names.{evidence_table}
use runtime_code_skeptic.Fact.{Fact, known}
use runtime_code_skeptic.Range.{uint64_max}
use runtime_code_skeptic.Json.{Value, Signed, Members, no_members, member, find_member}
use runtime_code_skeptic.Json.Hex.{from_hex, from_hex-fits}
use runtime_code_skeptic.Json.Shape.{IsValue, AllMembers}
use runtime_code_skeptic.Document.{
  Failure, Outcome, ◌>>=◌, inside, or_refuse, refuse_if, check_keys, optional_string,
  required_string, entry,
}
use runtime_code_skeptic.Document.Facts.{
  is_null, is_unknown, read_uint, read_address, fact_from_value, fact_from_json, required,
}

-- A reader that refuses, or gives a value of which `P` holds.
pub data Gives {A : Type 0} (P : A → Type 0) : Outcome A → Type 0 where
  gives : {a : A} → P a → Gives P (Outcome.ok a)
  refuses : {e : Failure} → Gives P (Outcome.refused e)

abbrev pub Any : {A : Type 0} → A → Type 0
Any a = Unit

pub Any-Gives : {A : Type 0} (m : Outcome A) → Gives Any m
Any-Gives (Outcome.ok a) = gives tt
Any-Gives (Outcome.refused e) = refuses

pub bind-Gives :
    {A B : Type 0} {P : A → Type 0} {Q : B → Type 0} {m : Outcome A} (f : A → Outcome B)
    → Gives P m
    → ((a : A) → P a → Gives Q (f a))
    → Gives Q (m >>= f)
bind-Gives f (gives {a = a} h) k = k a h
bind-Gives f refuses k = refuses

pub inside-Gives :
    {A : Type 0} {P : A → Type 0} (key : Bytes) {m : Outcome A} → Gives P m → Gives P (inside key m)
inside-Gives key (gives h) = gives h
inside-Gives key refuses = refuses

pub refuse_if-Gives : (b : Bool) (e : Failure) → Gives (λ u. b ≡ false) (refuse_if b e)
refuse_if-Gives true e = refuses
refuse_if-Gives false e = gives refl

pub or_refuse-Gives :
    {A : Type 0} {P : A → Type 0} (o : Option A) (e : Failure)
    → Returns P Unit o
    → Gives P (or_refuse o e)
or_refuse-Gives (some a) e h = gives h
or_refuse-Gives none e h = refuses

given : {A : Type 0} {P : A → Type 0} {a : A} → Gives P (Outcome.ok a) → P a
given (gives h) = h

pub Gives-at :
    {A : Type 0} {P : A → Type 0} {m : Outcome A} (a : A) → Gives P m → m ≡ Outcome.ok a → P a
Gives-at {P = P} a g h = given (subst (Gives P) h g)

-- The property of a known value.
abbrev pub Known : {A : Type 0} → (A → Type 0) → Fact A → Type 0
Known P (Fact.established a class) = P a
Known P Fact.unknown = Unit

known-Known :
    {A : Type 0} (P : A → Type 0) (a : A) (class : EvidenceClass) → P a → Known P (known a class)
unfolding known
known-Known P a EvidenceClass.unknown h = tt
known-Known P a EvidenceClass.specified_guarantee h = h
known-Known P a EvidenceClass.measured_capability h = h
known-Known P a EvidenceClass.statically_inferred h = h
known-Known P a EvidenceClass.bounded_counterexample h = h
known-Known P a EvidenceClass.observed_invariant h = h
known-Known P a EvidenceClass.heuristic_risk h = h

-- A value of a document, where there is one.
abbrev pub IsNode : ℕ → Option Value → Type 0
IsNode d (some v) = IsValue d v
IsNode d none = Unit

pub find_member-IsNode :
    (d : ℕ) (key : Bytes) (ms : Members) → AllMembers d ms → IsNode d (find_member key ms)
unfolding find_member
find_member-IsNode d key no_members h = tt
find_member-IsNode d key (member k v rest) h =
    let ih = find_member-IsNode d key rest h.1 in
    if-intro (IsNode d) (same_bytes k key) (λ e. h.0) (λ e. ih)

pub required-Gives : (d : ℕ) (o : Option Value) → IsNode d o → Gives (IsValue d) (required o)
required-Gives d (some v) h = gives h
required-Gives d none h = refuses

-- A reader whose values have the property, whatever document it reads.
abbrev pub Reader : {A : Type 0} → (A → Type 0) → (Value → Outcome A) → Type 0
Reader P read = (d : ℕ) (v : Value) → IsValue d v → Gives P (read v)

fact_from_value-Gives :
    {A : Type 0} (P : A → Type 0) (read : Value → Outcome A) (d : ℕ) (class : EvidenceClass)
    (source note : Bytes) (v : Value)
    → Reader P read
    → IsValue d v
    → Gives (λ s. Known P s.fact) (fact_from_value read class source note v)
fact_from_value-Gives P read d class source note v r h =
    if-intro (Gives (λ s. Known P s.fact)) (is_unknown class || is_null v) (λ e. gives tt)
      (λ e. bind-Gives _ (r d v h) (λ value pv. gives (known-Known P value class pv)))

pub fact_from_json-Gives :
    {A : Type 0} (P : A → Type 0) (read : Value → Outcome A) (d : ℕ) (o : Option Value)
    → Reader P read
    → IsNode d o
    → Gives (λ s. Known P s.fact) (fact_from_json read o)
unfolding fact_from_json
fact_from_json-Gives P read d none r h = gives tt
fact_from_json-Gives P read d (some Value.null) r h = gives tt
fact_from_json-Gives P read d (some (Value.bool b)) r h = refuses
fact_from_json-Gives P read d (some (Value.int n)) r h = refuses
fact_from_json-Gives P read d (some (Value.uint n)) r h = refuses
fact_from_json-Gives P read d (some (Value.double t)) r h = refuses
fact_from_json-Gives P read d (some (Value.str t)) r h = refuses
fact_from_json-Gives P read d (some (Value.array t)) r h = refuses
fact_from_json-Gives P read d (some (Value.object ms)) r h =
    let at = λ (key : String). find_member (codes key) ms in
    let node = λ (key : String). find_member-IsNode (d + 1) (codes key) ms h.1.1 in
    let keys = check_keys ("value" ∷ "evidence" ∷ "source" ∷ "note" ∷ []) ms in
    bind-Gives _ (Any-Gives keys) (λ u a.
      bind-Gives _ (Any-Gives (required_string (at "evidence"))) (λ evidence a.
        bind-Gives _
          (Any-Gives (or_refuse (entry evidence_table evidence) Failure.unrecognized_value))
          (λ class a. bind-Gives _ (Any-Gives (optional_string (at "source"))) (λ source a.
            bind-Gives _ (Any-Gives (optional_string (at "note"))) (λ note a.
              bind-Gives _ (required-Gives (d + 1) (at "value") (node "value"))
                (λ v iv. fact_from_value-Gives P read (d + 1) class source note v r iv))))))

pub read_uint-Reader : Reader (λ n. n ≤ uint64_max) read_uint
unfolding read_uint
read_uint-Reader d Value.null h = refuses
read_uint-Reader d (Value.bool b) h = refuses
read_uint-Reader d (Value.int (Signed.from_zero n)) h = gives (omega arith)
read_uint-Reader d (Value.int (Signed.below n)) h = refuses
read_uint-Reader d (Value.uint n) h = gives h.1
read_uint-Reader d (Value.double t) h = refuses
read_uint-Reader d (Value.str t) h = refuses
read_uint-Reader d (Value.array t) h = refuses
read_uint-Reader d (Value.object t) h = refuses

pub read_address-Reader : Reader (λ n. n ≤ uint64_max) read_address
unfolding read_address
read_address-Reader d (Value.str s) h =
    or_refuse-Gives (from_hex s) Failure.bad_address (from_hex-fits s)
read_address-Reader d Value.null h = read_uint-Reader d Value.null h
read_address-Reader d (Value.bool b) h = read_uint-Reader d (Value.bool b) h
read_address-Reader d (Value.int z) h = read_uint-Reader d (Value.int z) h
read_address-Reader d (Value.uint n) h = read_uint-Reader d (Value.uint n) h
read_address-Reader d (Value.double t) h = read_uint-Reader d (Value.double t) h
read_address-Reader d (Value.array t) h = read_uint-Reader d (Value.array t) h
read_address-Reader d (Value.object t) h = read_uint-Reader d (Value.object t) h
