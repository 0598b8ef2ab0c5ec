-- ===== src/Json/Quoted.antt =====
-- A string that `append_escaped` of src/core/json.cpp wrote is read back by `parse_string`.
use runtime_code_skeptic.Base.{
  ℕ, zero, suc, ◌+◌, ◌*◌, ◌/◌, ◌%◌, ltb, leb, ◌≤◌, ◌<◌, true, false, [], ◌∷◌, ◌++◌, some, length,
  ◌==◌, if-intro, ◌≡◌, refl, ap, ◌∙◌, Bytes, arith,
}
use runtime_code_skeptic.Json.Lexer.{Parsed, expect}
use runtime_code_skeptic.Json.Lexer.Text.{
  hex_value, hex_digits, parse_hex4, encode_utf8, unicode_escape, simple_escape, read_escape,
  parse_chars, parse_string, prepend,
}
use runtime_code_skeptic.Json.Writer.{escape, escape_all, quoted, hex_digit}

pub hex_value-hex_digit : (d : ℕ) → d < 16 → hex_value (hex_digit d) ≡ some d
unfolding hex_value
hex_value-hex_digit d h = ground arith

pub append_assoc : (s t u : Bytes) → (s ++ t) ++ u ≡ s ++ (t ++ u)
append_assoc [] t u = refl
append_assoc (c ∷ s) t u = ap (λ x. c ∷ x) (append_assoc s t u)

pub append-nil : (t : Bytes) → t ++ [] ≡ t
append-nil [] = refl
append-nil (c ∷ t) = ap (λ x. c ∷ x) (append-nil t)

pub length-append : (s t : Bytes) → length (s ++ t) ≡ length s + length t
length-append [] t = omega arith
length-append (c ∷ s) t = let ih = length-append s t in omega arith

hex_digits-hex_digit :
    (n v d : ℕ) (ts : Bytes)
    → d < 16
    → hex_digits (suc n) v (hex_digit d ∷ ts) ≡ hex_digits n (v * 16 + d) ts
unfolding hex_digits
hex_digits-hex_digit n v d ts h = let e = hex_value-hex_digit d h in rw (hex_digits, e) refl

hex_digits-done : (c v : ℕ) (rest : Bytes) → v ≡ c → hex_digits 0 v rest ≡ Parsed.ok c rest
unfolding hex_digits
hex_digits-done c v rest h = rw h refl

parse_hex4-control :
    (c : ℕ) (rest : Bytes)
    → c < 32
    → parse_hex4 (48 ∷ 48 ∷ hex_digit (c / 16) ∷ hex_digit (c % 16) ∷ rest) ≡ Parsed.ok c rest
unfolding parse_hex4
parse_hex4-control c rest h =
    let long : ltb (suc (suc (suc (suc (length rest))))) 4 ≡ false = ground arith in
    let value : (0 * 16 + c / 16) * 16 + c % 16 ≡ c = omega arith in
    let low = hex_digit (c % 16) ∷ rest in
    let high = hex_digit (c / 16) ∷ low in
    rw long (
      hex_digits-hex_digit 3 0 0 (48 ∷ high) (omega arith)
      ∙ hex_digits-hex_digit 2 0 0 high (omega arith)
      ∙ hex_digits-hex_digit 1 0 (c / 16) low (omega arith)
      ∙ hex_digits-hex_digit 0 (0 * 16 + c / 16) (c % 16) rest (omega arith)
      ∙ hex_digits-done c _ rest value)

-- The escape of a control character.
read_escape-control :
    (c : ℕ) (rest : Bytes)
    → c < 32
    → read_escape (117 ∷ 48 ∷ 48 ∷ hex_digit (c / 16) ∷ hex_digit (c % 16) ∷ rest)
      ≡ Parsed.ok (c ∷ []) rest
unfolding read_escape unicode_escape encode_utf8
read_escape-control c rest h =
    let number = parse_hex4-control c rest h in
    let small : leb c 0x7F ≡ true = ground arith in
    let low : leb 0xD800 c ≡ false = ground arith in
    let low' : leb 0xDC00 c ≡ false = ground arith in rw (number, low, low', small) refl

-- The escape of one letter.
parse_chars-short :
    (f c k e : ℕ) (rest : Bytes)
    → (c == k) ≡ true
    → (e == 117) ≡ false
    → simple_escape e ≡ some k
    → parse_chars (suc f) (92 ∷ e ∷ rest) ≡ prepend (c ∷ []) (parse_chars f rest)
unfolding parse_chars read_escape
parse_chars-short f c k e rest h n s = let q : c ≡ k = ground arith in rw (n, s, q) refl

parse_chars-control :
    (f c : ℕ) (rest : Bytes)
    → ltb c 32 ≡ true
    → parse_chars (suc f) (92 ∷ 117 ∷ 48 ∷ 48 ∷ hex_digit (c / 16) ∷ hex_digit (c % 16) ∷ rest)
      ≡ prepend (c ∷ []) (parse_chars f rest)
unfolding parse_chars
parse_chars-control f c rest h = let e = read_escape-control c rest (ground arith) in rw e refl

parse_chars-plain :
    (f c : ℕ) (rest : Bytes)
    → (c == 34) ≡ false
    → (c == 92) ≡ false
    → ltb c 32 ≡ false
    → parse_chars (suc f) (c ∷ rest) ≡ prepend (c ∷ []) (parse_chars f rest)
unfolding parse_chars
parse_chars-plain f c rest h1 h2 h3 = rw (h1, h2, h3) refl

-- One character of a string in front of what is read after it.
parse_chars-escape :
    (f c : ℕ) (rest : Bytes)
    → parse_chars (suc f) (escape c ++ rest) ≡ prepend (c ∷ []) (parse_chars f rest)
unfolding escape simple_escape
parse_chars-escape f c rest =
    let P =
      λ (e : Bytes). parse_chars (suc f) (e ++ rest) ≡ prepend (c ∷ []) (parse_chars f rest) in
    if-intro P (c == 34) (λ e. parse_chars-short f c 34 34 rest e refl refl)
      (λ n1.
        if-intro P (c == 92) (λ e. parse_chars-short f c 92 92 rest e refl refl)
          (λ n2.
            if-intro P (c == 8) (λ e. parse_chars-short f c 8 98 rest e refl refl)
              (λ n3.
                if-intro P (c == 12) (λ e. parse_chars-short f c 12 102 rest e refl refl)
                  (λ n4.
                    if-intro P (c == 10) (λ e. parse_chars-short f c 10 110 rest e refl refl)
                      (λ n5.
                        if-intro P (c == 13) (λ e. parse_chars-short f c 13 114 rest e refl refl)
                          (λ n6.
                            if-intro P (c == 9) (λ e. parse_chars-short f c 9 116 rest e refl refl)
                              (λ n7.
                                if-intro P (ltb c 32) (λ e. parse_chars-control f c rest e)
                                  (λ n8. parse_chars-plain f c rest n1 n2 n8))))))))

closing : (f : ℕ) (rest : Bytes) → parse_chars (suc f) (34 ∷ rest) ≡ Parsed.ok [] rest
unfolding parse_chars
closing f rest = refl

parse_chars-escape_all :
    (f : ℕ) (s rest : Bytes)
    → length s < f
    → parse_chars f (escape_all s ++ (34 ∷ rest)) ≡ Parsed.ok s rest
unfolding escape_all
parse_chars-escape_all zero s rest h = absurd (omega arith)
parse_chars-escape_all (suc f) [] rest h = closing f rest
parse_chars-escape_all (suc f) (c ∷ s) rest h =
    let assoc = append_assoc (escape c) (escape_all s) (34 ∷ rest) in
    let head = parse_chars-escape f c (escape_all s ++ (34 ∷ rest)) in
    let ih = parse_chars-escape_all f s rest (omega arith) in rw assoc (head ∙ (rw ih refl))

escape-length : (c : ℕ) → 0 < length (escape c)
unfolding escape
escape-length c = ground arith

escape_all-length : (s rest : Bytes) → length s + length rest ≤ length (escape_all s ++ rest)
unfolding escape_all
escape_all-length [] rest = omega arith
escape_all-length (c ∷ s) rest =
    let ih = escape_all-length s rest in
    let h = escape-length c in
    let assoc = append_assoc (escape c) (escape_all s) rest in
    rw assoc (let l = length-append (escape c) (escape_all s ++ rest) in omega arith)

-- A quoted string is read back, whatever follows it.
pub parse_string-quoted : (s rest : Bytes) → parse_string (quoted s ++ rest) ≡ Parsed.ok s rest
unfolding parse_string expect quoted
parse_string-quoted s rest =
    let assoc = append_assoc (escape_all s) (34 ∷ []) rest in
    let l = escape_all-length s (34 ∷ rest) in
    let body =
      parse_chars-escape_all (suc (length (escape_all s ++ (34 ∷ rest)))) s rest (omega arith) in
    rw assoc body
