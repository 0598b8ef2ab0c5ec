-- ===== src/Json/Written/Pairs.antt =====
-- The texts of the members of an object.
use mathlib.Core.Path.{subst}
use runtime_code_skeptic.Base.{
  ℕ, zero, suc, ◌+◌, ◌*◌, ◌≤◌, [], ◌∷◌, ◌++◌, length, ◌≡◌, refl, sym, ap, ◌∙◌, Bytes, arith,
}
use runtime_code_skeptic.Json.{Value, Members, no_members, member}
use runtime_code_skeptic.Json.Lexer.{Parsed, skip_ws, expect}
use runtime_code_skeptic.Json.Parser.{parse_value, parse_members, parse_key, next_element}
use runtime_code_skeptic.Json.Writer.{quoted}
use runtime_code_skeptic.Json.Order.{
  KeysSorted, AllBefore, join, join_assoc, find_member-AllBefore, insert_member-AllBefore,
  AllBefore-join,
}
use runtime_code_skeptic.Json.Shape.{AllMembers}
use runtime_code_skeptic.Json.Quoted.{append_assoc, length-append, parse_string-quoted}
use runtime_code_skeptic.Json.Written.{skip_ws-StartsValue, Written, read_back, read_members}

-- All keys so far come before the first of the members.
abbrev pub AllBeforeFirst : Members → Members → Type 0
AllBeforeFirst acc no_members = Unit
AllBeforeFirst acc (member k v rest) = AllBefore acc k

-- The text of the members, up to the closing brace, is read as them, behind those that are there.
abbrev pub MembersRead : Members → Bytes → Type 0
MembersRead ms t =
    (f d : ℕ) (acc : Members) (rest : Bytes)
    → AllMembers (d + 1) ms
    → KeysSorted ms
    → AllBeforeFirst acc ms
    → 2 * length (t ++ (125 ∷ rest)) + 2 ≤ f
    → parse_members f d acc (t ++ (125 ∷ rest)) ≡ Parsed.ok (join acc (read_members ms)) rest

abbrev pub MembersTail : Members → Bytes → Type 0
MembersTail no_members t = t ≡ []
MembersTail (member k v ms) t = (u : Bytes) × ((t ≡ 44 ∷ u) × MembersRead (member k v ms) u)

-- The text of a key and its colon.
abbrev pub key_text : Bytes → Bytes
key_text k = quoted k ++ (58 ∷ [])

skip_ws-quoted : (k ts : Bytes) → skip_ws (quoted k ++ ts) ≡ quoted k ++ ts
unfolding quoted skip_ws
skip_ws-quoted k ts = refl

parse_key-key_text :
    (k ts : Bytes) → skip_ws ts ≡ ts → parse_key (key_text k ++ ts) ≡ Parsed.ok k ts
unfolding parse_key expect skip_ws
parse_key-key_text k ts h =
    let assoc = append_assoc (quoted k) (58 ∷ []) ts in
    let ws = skip_ws-quoted k (58 ∷ ts) in
    let key = parse_string-quoted k (58 ∷ ts) in rw (assoc, ws, key, h) refl

parse_members-last :
    (f d : ℕ) (acc : Members) (ts us rest k : Bytes) (v : Value)
    → AllBefore acc k
    → parse_key ts ≡ Parsed.ok k us
    → parse_value f (d + 1) us ≡ Parsed.ok v (125 ∷ rest)
    → parse_members (suc f) d acc ts ≡ Parsed.ok (join acc (member k v no_members)) rest
unfolding parse_members next_element skip_ws
parse_members-last f d acc ts us rest k v b hk hv =
    let new = find_member-AllBefore k acc b in
    let grown = insert_member-AllBefore k v acc b in rw (hk, hv, new, grown) refl

parse_members-more :
    (f d : ℕ) (acc : Members) (ts us vs rest k : Bytes) (v : Value) (ms : Members)
    → AllBefore acc k
    → parse_key ts ≡ Parsed.ok k us
    → parse_value f (d + 1) us ≡ Parsed.ok v (44 ∷ vs)
    → parse_members f d (join acc (member k v no_members)) vs ≡ Parsed.ok ms rest
    → parse_members (suc f) d acc ts ≡ Parsed.ok ms rest
unfolding parse_members next_element skip_ws
parse_members-more f d acc ts us vs rest k v ms b hk hv h =
    let new = find_member-AllBefore k acc b in
    let grown = insert_member-AllBefore k v acc b in rw (hk, hv, new, grown, h) refl

-- A key and its value, and what follows them.
member_text_assoc :
    (k s t us : Bytes) → (key_text k ++ (s ++ t)) ++ us ≡ key_text k ++ (s ++ (t ++ us))
member_text_assoc k s t us =
    append_assoc (key_text k) (s ++ t) us ∙ ap (λ x. key_text k ++ x) (append_assoc s t us)

last-MembersRead :
    (k : Bytes) (v : Value) (s : Bytes)
    → Written v s
    → MembersRead (member k v no_members) (key_text k ++ (s ++ []))
last-MembersRead k v s w zero d acc rest a o b l = absurd (omega arith)
last-MembersRead k v s w (suc f) d acc rest a o b l =
    let us = 125 ∷ rest in
    let assoc = member_text_assoc k s [] us in
    let n = ap length assoc in
    let m = length-append (key_text k) (s ++ us) in
    rw assoc (
      parse_members-last f d acc (key_text k ++ (s ++ us)) (s ++ us) rest k (read_back v) b
        (parse_key-key_text k (s ++ us) (skip_ws-StartsValue s us w.0))
        (w.1 f (d + 1) us a.0 (refl, (refl, refl)) (omega arith)))

more-MembersRead :
    (k : Bytes) (v : Value) (k' : Bytes) (v' : Value) (ms : Members) (s u : Bytes)
    → Written v s
    → MembersRead (member k' v' ms) u
    → MembersRead (member k v (member k' v' ms)) (key_text k ++ (s ++ (44 ∷ u)))
more-MembersRead k v k' v' ms s u w r zero d acc rest a o b l = absurd (omega arith)
more-MembersRead k v k' v' ms s u w r (suc f) d acc rest a o b l =
    let vs = u ++ (125 ∷ rest) in
    let us = 44 ∷ vs in
    let assoc = member_text_assoc k s (44 ∷ u) (125 ∷ rest) in
    let n = ap length assoc in
    let m = length-append (key_text k) (s ++ us) in
    let m' = length-append s us in
    let grown = join acc (member k (read_back v) no_members) in
    rw assoc (
      parse_members-more f d acc (key_text k ++ (s ++ us)) (s ++ us) vs rest k (read_back v) _ b
        (parse_key-key_text k (s ++ us) (skip_ws-StartsValue s us w.0))
        (w.1 f (d + 1) us a.0 (refl, (refl, refl)) (omega arith))
        (r f d grown rest a.1 o.1 (AllBefore-join acc k (read_back v) k' b o.0) (omega arith)
          ∙ ap (λ x. Parsed.ok x rest)
              (join_assoc acc (member k (read_back v) no_members)
                (read_members (member k' v' ms)))))

pub member-MembersRead :
    (k : Bytes) (v : Value) (ms : Members) (s t : Bytes)
    → Written v s
    → MembersTail ms t
    → MembersRead (member k v ms) (key_text k ++ (s ++ t))
member-MembersRead k v no_members s t w tail =
    subst (λ t. MembersRead (member k v no_members) (key_text k ++ (s ++ t))) (sym tail)
      (last-MembersRead k v s w)
member-MembersRead k v (member k' v' ms) s t w tail =
    subst (λ t. MembersRead (member k v (member k' v' ms)) (key_text k ++ (s ++ t)))
      (sym (tail.1.0)) (more-MembersRead k v k' v' ms s (tail.0) w (tail.1.1))
