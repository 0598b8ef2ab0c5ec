-- ===== src/Json/Canonical.antt =====
-- The canonical text of a document that was read (src/core/json.cpp): hashes are taken of it.
use mathlib.Core.Path.{subst}
use runtime_code_skeptic.Base.{some, Bool, true, false, ◌≡◌, refl, sym, ap, ◌∙◌, inl, inr, Bytes}
use runtime_code_skeptic.Json.{Value, Signed, Items, Members, no_items, item, no_members, member}
use runtime_code_skeptic.Json.Parser.{parse, ParseResult, ParseError}
use runtime_code_skeptic.Json.Writer.{
  write_canonical, write_items, write_members, serialize_canonical,
}
use runtime_code_skeptic.Json.Shape.{IsValue}
use runtime_code_skeptic.Json.Total.{parse-IsValue}
use runtime_code_skeptic.Json.Written.{read_back, read_items, read_members}
use runtime_code_skeptic.Json.RoundTrip.{parse-serialize_canonical}

mutual
  unfolding write_canonical write_items write_members

  write_canonical-read_back : (v : Value) → write_canonical (read_back v) ≡ write_canonical v
  write_canonical-read_back Value.null = refl
  write_canonical-read_back (Value.bool b) = refl
  write_canonical-read_back (Value.int (Signed.from_zero n)) = refl
  write_canonical-read_back (Value.int (Signed.below n)) = refl
  write_canonical-read_back (Value.uint n) = refl
  write_canonical-read_back (Value.double t) = refl
  write_canonical-read_back (Value.str s) = refl
  write_canonical-read_back (Value.array xs) = let ih = write_items-read_items true xs in rw ih refl
  write_canonical-read_back (Value.object ms) =
      let ih = write_members-read_members true ms in rw ih refl

  write_items-read_items :
      (first : Bool) (xs : Items) → write_items first (read_items xs) ≡ write_items first xs
  write_items-read_items first no_items = refl
  write_items-read_items first (item v xs) =
      let ih = write_canonical-read_back v in
      let ihs = write_items-read_items false xs in rw (ih, ihs) refl

  write_members-read_members :
      (first : Bool) (ms : Members) → write_members first (read_members ms) ≡ write_members first ms
  write_members-read_members first no_members = refl
  write_members-read_members first (member k v ms) =
      let ih = write_canonical-read_back v in
      let ihs = write_members-read_members false ms in rw (ih, ihs) refl

value_or_null : ParseResult → Value
value_or_null (ParseResult.value v) = v
value_or_null _ = Value.null

differs :
    (text : Bytes) (v : Value) (e : ParseError) → ¬ (ParseResult.value v ≡ ParseResult.error e)
differs text v e = λ h. cc

pub parsed-IsValue : (text : Bytes) (v : Value) → parse text ≡ ParseResult.value v → IsValue 0 v
unfolding value_or_null
parsed-IsValue text v h = elim (parse-IsValue text) [
  | inl p ↦ subst (IsValue 0) (ap value_or_null (sym (p.1.0) ∙ h)) (p.1.1)
  | inr p ↦ absurd (differs text v p.0 (sym h ∙ p.1.0))
]

-- The canonical text of any document that was read is read again, and the canonical text of what comes
-- back is the same text.
pub canonical_is_stable :
    (text t : Bytes) (v : Value)
    → parse text ≡ ParseResult.value v
    → serialize_canonical v ≡ some t
    → (w : Value) × ((parse t ≡ ParseResult.value w) × (serialize_canonical w ≡ some t))
canonical_is_stable text t v h e = (
  read_back v,
  (parse-serialize_canonical v t (parsed-IsValue text v h) e, write_canonical-read_back v ∙ e),
)
