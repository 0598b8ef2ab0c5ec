-- ===== src/Json/Hex.antt =====
-- Addresses as texts: `to_hex` and `from_hex` of src/core/json.cpp.
use mathlib.Core.Path.{subst}
use runtime_code_skeptic.Base.{
  ℕ, zero, suc, ◌+◌, ◌-◌, ◌*◌, ◌/◌, ◌%◌, ltb, leb, ◌≤◌, ◌<◌, false, not, ◌&&◌, ◌||◌, [], ◌∷◌, ◌++◌,
  Option, none, some, length, ◌==◌, if◌then◌else◌, if-intro, option-intro, Returns, ◌≡◌, refl, sym,
  ap, ◌∙◌, Bytes, arith,
}
use runtime_code_skeptic.Range.{uint64_max}
use runtime_code_skeptic.Json.Lexer.{is_digit}
use runtime_code_skeptic.Json.Lexer.Text.{hex_value}
use runtime_code_skeptic.Json.Writer.{hex_digit, hex_digits_of, to_hex}
use runtime_code_skeptic.Json.Quoted.{hex_value-hex_digit, append_assoc, append-nil, length-append}

-- The loop of `from_hex`, from the value so far. An underscore is passed over.
unfoldable pub hex_from : ℕ → Bytes → Option ℕ
unfolding hex_value
hex_from value [] = some value
hex_from value (c ∷ ts) =
    let skipped = hex_from value ts in
    let next : Option ℕ = elim (hex_value c) [
      | none ↦ none
      | some digit ↦
          let more = hex_from (value * 16 + digit) ts in
          if ltb ((uint64_max - digit) / 16) value then none else more
    ] in
    if c == 95 then skipped else next

unfoldable pub from_hex : Bytes → Option ℕ
unfolding hex_from
from_hex (z ∷ x ∷ ts) =
    if ltb (length ts) 1
    then none
    else if not (z == 48) || not (x == 120) && not (x == 88)
    then none
    else hex_from 0 ts
from_hex ts = none

hex_value-digit : (c : ℕ) → Returns (λ d. d < 16) Unit (hex_value c)
unfolding hex_value
hex_value-digit c =
    let P = Returns {A = ℕ} (λ d. d < 16) (Unit {0}) in
    if-intro P (is_digit c) (λ e. ground arith)
      (λ e.
        if-intro P (leb 97 c && leb c 102) (λ e. ground arith)
          (λ e. if-intro P (leb 65 c && leb c 70) (λ e. ground arith) (λ e. tt)))

hex_from-fits :
    (value : ℕ) (ts : Bytes)
    → value ≤ uint64_max
    → Returns (λ n. n ≤ uint64_max) Unit (hex_from value ts)
unfolding hex_from
hex_from-fits value [] h = h
hex_from-fits value (c ∷ ts) h =
    let P = Returns {A = ℕ} (λ n. n ≤ uint64_max) (Unit {0}) in
    if-intro P (c == 95) (λ e. hex_from-fits value ts h)
      (λ e.
        option-intro P (hex_value c) _ _
          (λ d k.
            let small = subst (Returns (λ d. d < 16) Unit) k (hex_value-digit c) in
            if-intro P (ltb ((uint64_max - d) / 16) value) (λ e. tt)
              (λ e. hex_from-fits (value * 16 + d) ts (ground arith)))
          (λ k. tt))

-- Whatever text is read as an address, the address fits in 64 bits.
pub from_hex-fits : (text : Bytes) → Returns (λ n. n ≤ uint64_max) Unit (from_hex text)
unfolding from_hex
from_hex-fits [] = tt
from_hex-fits (z ∷ []) = tt
from_hex-fits (z ∷ x ∷ ts) =
    let P = Returns {A = ℕ} (λ n. n ≤ uint64_max) (Unit {0}) in
    if-intro P (ltb (length ts) 1) (λ e. tt)
      (λ e.
        if-intro P (not (z == 48) || not (x == 120) && not (x == 88)) (λ e. tt)
          (λ e. hex_from-fits 0 ts (omega arith)))

hex_from-hex_digit :
    (value d : ℕ) (ts : Bytes)
    → d < 16
    → value * 16 + d ≤ uint64_max
    → hex_from value (hex_digit d ∷ ts) ≡ hex_from (value * 16 + d) ts
unfolding hex_from
hex_from-hex_digit value d ts h l =
    let e1 : (hex_digit d == 95) ≡ false = ground arith in
    let e2 = hex_value-hex_digit d h in
    let e3 : ltb ((uint64_max - d) / 16) value ≡ false = ground arith in
    rw (hex_from, e1, e2, e3) refl

hex_from-hex_digits_of :
    (f n : ℕ) (ts : Bytes)
    → n < f
    → n ≤ uint64_max
    → hex_from 0 (hex_digits_of f n ++ ts) ≡ hex_from n ts
unfolding hex_digits_of
hex_from-hex_digits_of zero n ts h l = absurd (omega arith)
hex_from-hex_digits_of (suc f) n ts h l =
    if-intro (λ (ds : Bytes). hex_from 0 (ds ++ ts) ≡ hex_from n ts) (ltb n 16)
      (λ e.
        let value : 0 * 16 + n ≡ n = omega arith in
        hex_from-hex_digit 0 n ts (ground arith) (omega arith) ∙ ap (λ x. hex_from x ts) value)
      (λ e.
        let last = hex_digit (n % 16) ∷ [] in
        let ih = hex_from-hex_digits_of f (n / 16) (last ++ ts) (ground arith) (omega arith) in
        let step = hex_from-hex_digit (n / 16) (n % 16) ts (omega arith) (omega arith) in
        let value : (n / 16) * 16 + n % 16 ≡ n = omega arith in
        ap (hex_from 0) (append_assoc (hex_digits_of f (n / 16)) last ts)
        ∙ (ih ∙ (step ∙ ap (λ x. hex_from x ts) value)))

hex_from-empty : (n : ℕ) → hex_from n [] ≡ some n
unfolding hex_from
hex_from-empty n = refl

hex_digits_of-length : (f n : ℕ) → n < f → 0 < length (hex_digits_of f n)
unfolding hex_digits_of
hex_digits_of-length zero n h = absurd (omega arith)
hex_digits_of-length (suc f) n h =
    if-intro (λ (ds : Bytes). 0 < length ds) (ltb n 16) (λ e. omega arith)
      (λ e.
        let l = length-append (hex_digits_of f (n / 16)) (hex_digit (n % 16) ∷ []) in omega arith)

-- An address that fits in 64 bits is read back from its text.
pub from_hex-to_hex : (n : ℕ) → n ≤ uint64_max → from_hex (to_hex n) ≡ some n
unfolding from_hex to_hex
from_hex-to_hex n h =
    let digits = hex_digits_of (suc n) n in
    let l = hex_digits_of-length (suc n) n (omega arith) in
    let some_digits : ltb (length digits) 1 ≡ false = ground arith in
    let read = hex_from-hex_digits_of (suc n) n [] (omega arith) h in
    rw some_digits (ap (hex_from 0) (sym (append-nil digits)) ∙ (read ∙ hex_from-empty n))
