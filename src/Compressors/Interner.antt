-- ===== src/Compressors/Interner.antt =====
-- `StringInterner` (src/daemon/compressor.rs): the ids that stand for texts in focus events. An id
-- is a `u16`: the number of texts before it, cut to 16 bits.
use kronical.Prelude.{
  ℕ, zero, suc, ◌%◌, ◌≤◌, ◌<◌, max, String, ◌≡◌, refl, ap, Option, none, some, List, [], ◌∷◌, ◌++◌,
  length, arith, leb, leb→gt, Bool-cases, Option-cases, inl, inr, length-append, if◌then◌else◌,
  if_elim,
}
use kronical.Prelude.Classes.{string_eq}
use kronical.Prelude.Text.{str_eq, eq_iff}
use kronical.Common.Maps.{lookup, insert, lookup-insert}
use kronical.Compression.{StringId}

pub record StringInterner : Type 0 where
  pub strings : List String
  pub ids : List (String × StringId)
  pub max_strings : ℕ

unfoldable pub with_cap : ℕ → StringInterner
with_cap max_strings = record { strings = []; ids = []; max_strings = max max_strings 1 }

-- At the capacity everything is forgotten, and the ids restart.
abbrev pub make_room : StringInterner → StringInterner
make_room i =
    if leb i.max_strings (length i.strings) then record i { strings = []; ids = [] } else i

abbrev pub add_string : StringInterner → String → StringInterner × StringId
add_string i s =
    let id = length i.strings % 65536 in
    (record i { strings = i.strings ++ s ∷ []; ids = insert s id i.ids }, id)

-- A known text has its id already.
abbrev pub id_for : Option StringId → StringInterner → String → StringInterner × StringId
id_for (some id) i s = (i, id)
id_for none i s = add_string (make_room i) s

unfoldable pub intern : StringInterner → String → StringInterner × StringId
intern i s = id_for (lookup s i.ids) i s

-- The text that stands at a place.
abbrev pub get : List String → ℕ → Option String
get [] n = none
get (s ∷ strings) zero = some s
get (s ∷ strings) (suc n) = get strings n

get-append : (l m : List String) (n : ℕ) (s : String) → get l n ≡ some s → get (l ++ m) n ≡ some s
get-append [] m n s h = cc
get-append (t ∷ l) m zero s h = h
get-append (t ∷ l) m (suc n) s h = get-append l m n s h

get_end : (l : List String) (s : String) → get (l ++ s ∷ []) (length l) ≡ some s
get_end [] s = refl
get_end (t ∷ l) s = get_end l s

get_bound : (l : List String) (n : ℕ) (s : String) → get l n ≡ some s → n < length l
get_bound [] n s h = cc
get_bound (t ∷ l) zero s h = omega arith
get_bound (t ∷ l) (suc n) s h = omega (arith, get_bound l n s h)

-- Each id names its text; there are at most `max_strings`, which a `u16` can tell apart.
pub record IsValid (i : StringInterner) : Type 0 where
  pub named : (s : String) (id : StringId) → lookup s i.ids ≡ some id → get i.strings id ≡ some s
  pub bounded : length i.strings ≤ i.max_strings
  pub positive : 0 < i.max_strings
  pub fits : i.max_strings ≤ 65536

pub with_cap-IsValid : (n : ℕ) → n ≤ 65536 → IsValid (with_cap n)
unfolding with_cap lookup
with_cap-IsValid n h = record {
  named = λ s id e. ground arith;
  bounded = omega arith;
  positive = omega arith;
  fits = omega arith;
}

make_room-IsValid :
    (i : StringInterner)
    → IsValid i
    → IsValid (make_room i)
      × (length (make_room i).strings < i.max_strings)
      × ((make_room i).max_strings ≡ i.max_strings)
unfolding lookup
make_room-IsValid i v =
    if_elim
      (λ (j : StringInterner).
        IsValid j × (length j.strings < i.max_strings) × (j.max_strings ≡ i.max_strings))
      (leb i.max_strings (length i.strings)) _ i
      (λ full. (
        record {
          named = λ s id e. ground arith;
          bounded = omega arith;
          positive = v.positive;
          fits = v.fits;
        },
        v.positive,
        refl,
      ))
      λ room. (v, leb→gt _ _ room, refl)

-- What an id that was just given is good for.
pub record Names (s : String) (r : StringInterner × StringId) : Type 0 where
  pub valid : IsValid r.0
  pub text : get r.0.strings r.1 ≡ some s
  pub kept : lookup s r.0.ids ≡ some r.1
  pub below : r.1 < r.0.max_strings

added :
    (strings : List String) (ids : List (String × StringId)) (s t : String) (id : StringId)
    → ((u : String) (j : StringId) → lookup u ids ≡ some j → get strings j ≡ some u)
    → lookup t (insert s (length strings) ids) ≡ some id
    → get (strings ++ s ∷ []) id ≡ some t
added strings ids s t id named e = elim (Bool-cases (str_eq s t)) [
  | inl same ↦
      let e' : some (length strings) ≡ some id =
        rw same at (rw (lookup-insert s t (length strings) ids) at e) in
      let place : length strings ≡ id = cc in
      let text : s ≡ t = (eq_iff s t).0 same in rw (← place) (rw (← text) (get_end strings s))
  | inr other ↦
      let e' : lookup t ids ≡ some id =
        rw other at (rw (lookup-insert s t (length strings) ids) at e) in
      get-append strings (s ∷ []) id t (named t id e')
]

add_string-Names :
    (i : StringInterner) (s : String)
    → IsValid i
    → length i.strings < i.max_strings
    → Names s (add_string i s)
add_string-Names i s v room =
    let place : length i.strings % 65536 ≡ length i.strings = omega (arith, v.fits) in
    rw place (record {
      valid = record {
        named = λ t id e. added i.strings i.ids s t id v.named e;
        bounded = omega (arith, length-append i.strings (s ∷ []));
        positive = v.positive;
        fits = v.fits;
      };
      text = get_end i.strings s;
      kept = rw (lookup-insert s s (length i.strings) i.ids) (rw ((eq_iff s s).1 refl) refl);
      below = room;
    })

intern_known :
    (i : StringInterner) (s : String) (id : StringId)
    → lookup s i.ids ≡ some id
    → intern i s ≡ (i, id)
unfolding intern
intern_known i s id known = ap (λ o. id_for o i s) known

intern_new :
    (i : StringInterner) (s : String)
    → lookup s i.ids ≡ none
    → intern i s ≡ add_string (make_room i) s
unfolding intern
intern_new i s new = ap (λ o. id_for o i s) new

-- In an interner that holds at most 65536 texts, the id that `intern` gives stands for the text, is
-- below the capacity and is remembered, so that asking again gives the same id and changes nothing;
-- and the interner stays valid.
pub intern-Names :
    (i : StringInterner) (s : String)
    → IsValid i
    → Names s (intern i s) × (intern (intern i s).0 s ≡ intern i s)
intern-Names i s v = elim (Option-cases (lookup s i.ids)) [
  | inl new ↦
      let (valid, room, same) = make_room-IsValid i v in
      let names = add_string-Names (make_room i) s valid (omega arith) in
      rw (intern_new i s new) (names, intern_known _ s _ names.kept)
  | inr (id, known) ↦
      let place = v.named s id known in
      let below = get_bound i.strings id s place in
      rw (intern_known i s id known) (
        record { valid = v; text = place; kept = known; below = omega (arith, v.bounded) },
        intern_known i s id known,
      )
]
