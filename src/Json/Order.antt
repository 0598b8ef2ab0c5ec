-- ===== src/Json/Order.antt =====
-- The order of the keys of an object, and what `insert_member` and `find_member` make of it.
use runtime_code_skeptic.Base.{
  true, false, [], ◌∷◌, if-intro, ◌≡◌, refl, ap, Bytes, same_bytes, bytes_before, arith, none,
}
use runtime_code_skeptic.Json.{Value, Members, no_members, member, find_member, insert_member}

pub bytes_before_trans :
    (s t u : Bytes) → bytes_before s t ≡ true → bytes_before t u ≡ true → bytes_before s u ≡ true
bytes_before_trans [] [] u h k = cc
bytes_before_trans [] (y ∷ t) [] h k = cc
bytes_before_trans [] (y ∷ t) (z ∷ u) h k = refl
bytes_before_trans (x ∷ s) [] u h k = cc
bytes_before_trans (x ∷ s) (y ∷ t) [] h k = cc
bytes_before_trans (x ∷ s) (y ∷ t) (z ∷ u) h k = let ih = bytes_before_trans s t u in ground arith

pub bytes_before-total :
    (s t : Bytes) → bytes_before s t ≡ false → same_bytes s t ≡ false → bytes_before t s ≡ true
bytes_before-total [] [] h k = cc
bytes_before-total [] (y ∷ t) h k = cc
bytes_before-total (x ∷ s) [] h k = refl
bytes_before-total (x ∷ s) (y ∷ t) h k = let ih = bytes_before-total s t in ground arith

pub bytes_before_irrefl : (s t : Bytes) → bytes_before s t ≡ true → same_bytes s t ≡ false
bytes_before_irrefl [] [] h = cc
bytes_before_irrefl [] (y ∷ t) h = refl
bytes_before_irrefl (x ∷ s) [] h = refl
bytes_before_irrefl (x ∷ s) (y ∷ t) h = let ih = bytes_before_irrefl s t in ground arith

pub bytes_before-asym : (s t : Bytes) → bytes_before s t ≡ true → bytes_before t s ≡ false
bytes_before-asym [] [] h = cc
bytes_before-asym [] (y ∷ t) h = refl
bytes_before-asym (x ∷ s) [] h = cc
bytes_before-asym (x ∷ s) (y ∷ t) h = let ih = bytes_before-asym s t in ground arith

pub same_bytes_refl : (s : Bytes) → same_bytes s s ≡ true
same_bytes_refl [] = refl
same_bytes_refl (x ∷ s) = let ih = same_bytes_refl s in ground arith

pub same_bytes-eq : (s t : Bytes) → same_bytes s t ≡ true → s ≡ t
same_bytes-eq [] [] h = refl
same_bytes-eq [] (y ∷ t) h = cc
same_bytes-eq (x ∷ s) [] h = cc
same_bytes-eq (x ∷ s) (y ∷ t) h =
    let p : x ≡ y = ground arith in
    let q : same_bytes s t ≡ true = ground arith in let ih = same_bytes-eq s t q in rw (p, ih) refl

-- The key comes before the first of the members.
abbrev pub Before : Bytes → Members → Type 0
Before key no_members = Unit
Before key (member k v rest) = bytes_before key k ≡ true

abbrev pub KeysSorted : Members → Type 0
KeysSorted no_members = Unit
KeysSorted (member k v rest) = Before k rest × KeysSorted rest

pub insert_member-Before :
    (k key : Bytes) (v : Value) (ms : Members)
    → bytes_before k key ≡ true
    → Before k ms
    → Before k (insert_member key v ms)
unfolding insert_member
insert_member-Before k key v no_members h b = h
insert_member-Before k key v (member k' w rest) h b =
    if-intro (Before k) (bytes_before key k') (λ e. h)
      (λ e. if-intro (Before k) (same_bytes key k') (λ e'. b) (λ e'. b))

pub insert_member-KeysSorted :
    (key : Bytes) (v : Value) (ms : Members) → KeysSorted ms → KeysSorted (insert_member key v ms)
unfolding insert_member
insert_member-KeysSorted key v no_members s = (tt, tt)
insert_member-KeysSorted key v (member k w rest) s =
    if-intro KeysSorted (bytes_before key k) (λ e. (e, s))
      (λ e.
        if-intro KeysSorted (same_bytes key k) (λ e'. s)
          (λ e'. (
            insert_member-Before k key v rest (bytes_before-total key k e e') s.0,
            insert_member-KeysSorted key v rest s.1,
          )))

pub bytes_before-differs : (s t : Bytes) → bytes_before s t ≡ true → same_bytes t s ≡ false
bytes_before-differs [] [] h = cc
bytes_before-differs [] (y ∷ t) h = refl
bytes_before-differs (x ∷ s) [] h = refl
bytes_before-differs (x ∷ s) (y ∷ t) h = let ih = bytes_before-differs s t in ground arith

-- All keys come before the key.
abbrev pub AllBefore : Members → Bytes → Type 0
AllBefore no_members key = Unit
AllBefore (member k v rest) key = (bytes_before k key ≡ true) × AllBefore rest key

-- One object's members before those of another.
abbrev pub join : Members → Members → Members
join no_members ms = ms
join (member k v rest) ms = member k v (join rest ms)

pub join_assoc : (ls ms ns : Members) → join (join ls ms) ns ≡ join ls (join ms ns)
join_assoc no_members ms ns = refl
join_assoc (member k v rest) ms ns = ap (λ x. member k v x) (join_assoc rest ms ns)

pub find_member-AllBefore :
    (key : Bytes) (ms : Members) → AllBefore ms key → find_member key ms ≡ none
unfolding find_member
find_member-AllBefore key no_members h = refl
find_member-AllBefore key (member k v rest) h =
    let ih = find_member-AllBefore key rest h.1 in
    let e = bytes_before_irrefl k key h.0 in rw (e, ih) refl

-- A key after all others is inserted at the end.
pub insert_member-AllBefore :
    (key : Bytes) (v : Value) (ms : Members)
    → AllBefore ms key
    → insert_member key v ms ≡ join ms (member key v no_members)
unfolding insert_member
insert_member-AllBefore key v no_members h = refl
insert_member-AllBefore key v (member k w rest) h =
    let ih = insert_member-AllBefore key v rest h.1 in
    let e = bytes_before-asym k key h.0 in
    let n = bytes_before-differs k key h.0 in rw (e, n, ih) refl

pub AllBefore-trans :
    (ms : Members) (s t : Bytes) → AllBefore ms s → bytes_before s t ≡ true → AllBefore ms t
AllBefore-trans no_members s t h e = tt
AllBefore-trans (member k v rest) s t h e =
    (bytes_before_trans k s t h.0 e, AllBefore-trans rest s t h.1 e)

pub AllBefore-join :
    (ms : Members) (key : Bytes) (v : Value) (next : Bytes)
    → AllBefore ms key
    → bytes_before key next ≡ true
    → AllBefore (join ms (member key v no_members)) next
AllBefore-join no_members key v next h e = (e, tt)
AllBefore-join (member k w rest) key v next h e =
    (bytes_before_trans k key next h.0 e, AllBefore-join rest key v next h.1 e)
