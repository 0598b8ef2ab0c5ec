-- ===== src/Tests/Documents.antt =====
-- The theorems about JSON texts at small documents.
use runtime_code_skeptic.Base.{
  ◌≤◌, ◌≡◌, ◌⊎◌, refl, none, some, Returns, Bytes, codes, length, arith,
}
use runtime_code_skeptic.Range.{uint64_max}
use runtime_code_skeptic.Json.{
  Value, Signed, no_items, item, no_members, member, find_member, insert_member,
}
use runtime_code_skeptic.Json.Parser.{
  parse, ParseResult, ParseError, parse_key, parse_scalar, next_element,
}
use runtime_code_skeptic.Json.Writer.{serialize_canonical, write_canonical, to_hex}
use runtime_code_skeptic.Json.Shape.{IsValue}
use runtime_code_skeptic.Json.Written.{read_back}
use runtime_code_skeptic.Json.Total.{parse-IsValue}
use runtime_code_skeptic.Json.RoundTrip.{parse-serialize_canonical}
use runtime_code_skeptic.Json.Canonical.{canonical_is_stable}
use runtime_code_skeptic.Json.Hex.{from_hex, from_hex-fits, from_hex-to_hex}

abbrev document : Value
document = Value.object (
    member (codes "a") (Value.array (item (Value.int (Signed.below 41)) (item Value.null no_items)))
      (member (codes "b") (Value.int (Signed.from_zero 7)) no_members))

abbrev document_text : Bytes
document_text = codes "{\"a\":[-42,null],\"b\":7}"

abbrev loose_text : Bytes
loose_text = codes " { \"b\" : 7, \"a\" : [ -42 , null ] } "

document-IsValue : IsValue 0 document
document-IsValue = (omega arith, ((refl, (tt, tt)), omega arith))

document_is_written : serialize_canonical document ≡ some document_text
unfolding write_canonical
document_is_written = refl

loose_is_read : parse loose_text ≡ ParseResult.value (read_back document)
unfolding parse parse_key parse_scalar find_member next_element insert_member
loose_is_read = refl

read_is_written : serialize_canonical (read_back document) ≡ some document_text
unfolding write_canonical
read_is_written = refl

parse-IsValue_example :
    ((v : Value) × ((parse loose_text ≡ ParseResult.value v) × IsValue 0 v))
    ⊎ ((e : ParseError) × ((parse loose_text ≡ ParseResult.error e)
          × (e.offset ≤ length loose_text)))
parse-IsValue_example = parse-IsValue loose_text

parse-serialize_canonical_example : parse document_text ≡ ParseResult.value (read_back document)
parse-serialize_canonical_example =
    parse-serialize_canonical document document_text document-IsValue document_is_written

canonical_is_stable_example :
    (w : Value) × ((parse document_text ≡ ParseResult.value w)
      × (serialize_canonical w ≡ some document_text))
canonical_is_stable_example =
    canonical_is_stable loose_text document_text (read_back document) loose_is_read read_is_written

from_hex-fits_example : Returns (λ n. n ≤ uint64_max) Unit (from_hex (codes "0xFFFF_0000"))
from_hex-fits_example = from_hex-fits (codes "0xFFFF_0000")

from_hex-to_hex_example : from_hex (to_hex 0x7FFF0000) ≡ some 0x7FFF0000
from_hex-to_hex_example = from_hex-to_hex 0x7FFF0000 (omega arith)

-- What `from_hex` takes and what it refuses.
underscore_alone_is_zero : from_hex (codes "0x_") ≡ some 0
unfolding from_hex
underscore_alone_is_zero = refl

too_large_is_refused : from_hex (codes "0x1_0000_0000_0000_0000") ≡ none
unfolding from_hex
too_large_is_refused = refl

no_prefix_is_refused : from_hex (codes "1000") ≡ none
unfolding from_hex
no_prefix_is_refused = refl
