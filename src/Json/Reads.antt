-- ===== src/Json/Reads.antt =====
-- What the reader of src/core/json.cpp does with its input: it stops, takes characters, and its values
-- have a property.
use runtime_code_skeptic.Base.{
  ℕ, zero, suc, ◌+◌, ◌-◌, ◌*◌, ltb, leb, ◌≤◌, ◌<◌, ◌&&◌, ◌||◌, [], ◌∷◌, Option, none, some, length,
  ◌==◌, if-intro, Returns, Returns-imp, option-intro, ◌≡◌, Bytes, arith,
}
use runtime_code_skeptic.Json.Lexer.{
  Message, Parsed, bind, skip_ws, expect, literal, after_prefix, is_ws,
}
use runtime_code_skeptic.Json.Lexer.Text.{
  hex_value, hex_digits, parse_hex4, low_surrogate, unicode_escape, simple_escape, read_escape,
  parse_chars, parse_string,
}

-- A read that ends: with a value of which `P` holds and at most `n` bytes left, or with an error.
pub data Reads {A : Type 0} (P : A → Type 0) (n : ℕ) : Parsed A → Type 0 where
  reads : {a : A} {rest : Bytes} → P a → length rest ≤ n → Reads P n (Parsed.ok a rest)
  stops : {m : Message} {rest : Bytes} → Reads P n (Parsed.failed m rest)

-- No property of the value.
abbrev pub Anything : {A : Type 0} → A → Type 0
Anything a = Unit

pub bind-Reads :
    {A B : Type 0} {P : A → Type 0} {Q : B → Type 0} {n k : ℕ} {p : Parsed A}
    (f : A → Bytes → Parsed B)
    → Reads P n p
    → ((a : A) (rest : Bytes) → P a → length rest ≤ n → Reads Q k (f a rest))
    → Reads Q k (bind p f)
bind-Reads f (reads {a = a} {rest = rest} ha l) h = h a rest ha l
bind-Reads f stops h = stops

pub weaken :
    {A : Type 0} {P : A → Type 0} {n k : ℕ} {p : Parsed A} → n ≤ k → Reads P n p → Reads P k p
weaken h (reads a l) = reads a (omega arith)
weaken h stops = stops

pub skip_ws-length : (ts : Bytes) → length (skip_ws ts) ≤ length ts
unfolding skip_ws
skip_ws-length [] = omega arith
skip_ws-length (c ∷ ts) =
    let ih = skip_ws-length ts in
    if-intro (λ u. length u ≤ suc (length ts)) (is_ws c) {x = skip_ws ts} {y = c ∷ ts}
      (λ e. omega arith) (λ e. omega arith)

pub expect-Reads : (c : ℕ) (ts : Bytes) → Reads Anything (length ts - 1) (expect c ts)
unfolding expect
expect-Reads c [] = stops
expect-Reads c (d ∷ ts) =
    if-intro (Reads Anything (suc (length ts) - 1)) (d == c) (λ e. reads tt (omega arith))
      (λ e. stops)

pub after_prefix-length :
    (cs ts : Bytes)
    → Returns (λ rest. length rest + length cs ≡ length ts) Unit (after_prefix cs ts)
unfolding after_prefix
after_prefix-length [] ts = omega arith
after_prefix-length (c ∷ cs) [] = tt
after_prefix-length (c ∷ cs) (d ∷ ts) =
    if-intro {A = Option Bytes}
      (λ o. Returns {A = Bytes} (λ rest. length rest + suc (length cs) ≡ suc (length ts)) Unit o)
      (d == c)
      (λ e.
        Returns-imp (λ rest. length rest + length cs ≡ length ts)
          (λ rest. length rest + suc (length cs) ≡ suc (length ts)) Unit (after_prefix cs ts)
          (λ rest h. omega arith) (after_prefix-length cs ts))
      (λ e. tt)

literal_read :
    (c : ℕ) (ts : Bytes) (n : ℕ) (o : Option Bytes)
    → Returns (λ rest. length rest + suc n ≡ length ts) Unit o
    → Reads {A = Unit {0}} Anything
        (length ts - 1)
        (elim o [ some rest ↦ Parsed.ok tt rest | none ↦ Parsed.failed Message.invalid_literal ts ])
literal_read c ts n (some rest) h = reads tt (omega arith)
literal_read c ts n none h = stops

pub literal-Reads : (c : ℕ) (cs ts : Bytes) → Reads Anything (length ts - 1) (literal (c ∷ cs) ts)
unfolding literal
literal-Reads c cs ts =
    literal_read c ts (length cs) (after_prefix (c ∷ cs) ts) (after_prefix-length (c ∷ cs) ts)

pub hex_digits-Reads : (n v : ℕ) (ts : Bytes) → Reads Anything (length ts) (hex_digits n v ts)
unfolding hex_digits
hex_digits-Reads zero v ts = reads tt (omega arith)
hex_digits-Reads (suc n) v [] = stops
hex_digits-Reads (suc n) v (c ∷ ts) =
    option-intro (Reads Anything (suc (length ts))) (hex_value c) _ _
      (λ d e. weaken (omega arith) (hex_digits-Reads n (v * 16 + d) ts)) (λ e. stops)

pub parse_hex4-Reads : (ts : Bytes) → Reads Anything (length ts) (parse_hex4 ts)
unfolding parse_hex4
parse_hex4-Reads ts =
    if-intro (Reads Anything (length ts)) (ltb (length ts) 4) (λ e. stops)
      (λ e. hex_digits-Reads 4 0 ts)

pub low_surrogate-Reads :
    (high : ℕ) (ts : Bytes) → Reads Anything (length ts) (low_surrogate high ts)
unfolding low_surrogate
low_surrogate-Reads high [] = stops
low_surrogate-Reads high (b ∷ []) = stops
low_surrogate-Reads high (b ∷ u ∷ ts) =
    if-intro (Reads Anything (suc (suc (length ts)))) (b == 92 && u == 117)
      (λ e. bind-Reads _ (parse_hex4-Reads ts) (λ low rest a l.
        if-intro (Reads Anything (suc (suc (length ts)))) (ltb low 0xDC00 || ltb 0xDFFF low)
          (λ e. stops) (λ e. reads tt (omega arith))))
      (λ e. stops)

pub unicode_escape-Reads : (ts : Bytes) → Reads Anything (length ts) (unicode_escape ts)
unfolding unicode_escape
unicode_escape-Reads ts = bind-Reads _ (parse_hex4-Reads ts) (λ cp rest a l.
    if-intro (Reads Anything (length ts)) (leb 0xD800 cp && leb cp 0xDBFF)
      (λ e. weaken l (low_surrogate-Reads cp rest))
      (λ e.
        if-intro (Reads Anything (length ts)) (leb 0xDC00 cp && leb cp 0xDFFF) (λ e. stops)
          (λ e. reads tt l)))

pub read_escape-Reads : (ts : Bytes) → Reads Anything (length ts) (read_escape ts)
unfolding read_escape
read_escape-Reads [] = stops
read_escape-Reads (e ∷ ts) =
    if-intro (Reads Anything (suc (length ts))) (e == 117)
      (λ h. weaken (omega arith) (unicode_escape-Reads ts))
      (λ h.
        option-intro (Reads Anything (suc (length ts))) (simple_escape e) _ _
          (λ c k. reads tt (omega arith)) (λ k. stops))

pub parse_chars-Reads :
    (f : ℕ) (ts : Bytes) → length ts < f → Reads Anything (length ts) (parse_chars f ts)
unfolding parse_chars
parse_chars-Reads zero ts h = absurd (omega arith)
parse_chars-Reads (suc f) [] h = stops
parse_chars-Reads (suc f) (c ∷ ts) h =
    let ih = parse_chars-Reads f in
    let P = Reads Anything (suc (length ts)) in
    if-intro P (c == 34) (λ e. reads tt (omega arith))
      (λ e1.
        if-intro P (c == 92)
          (λ e. bind-Reads _ (read_escape-Reads ts) (λ bs rest a l.
            bind-Reads _ (ih rest (omega arith)) (λ s end a m. reads tt (omega arith))))
          (λ e2.
            if-intro P (ltb c 32) (λ e. stops)
              (λ e. bind-Reads _ (ih ts (omega arith)) (λ s end a m. reads tt (omega arith)))))

pub parse_string-Reads : (ts : Bytes) → Reads Anything (length ts - 1) (parse_string ts)
unfolding parse_string
parse_string-Reads ts =
    bind-Reads _ (expect-Reads 34 ts)
      (λ u rest a l. weaken l (parse_chars-Reads (suc (length rest)) rest (omega arith)))
