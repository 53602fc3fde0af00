-- ===== src/Variant/Dict/Lookup.antt =====
-- What is found after an entry is added.
use libtransmission.Prelude.{
  ℕ, zero, suc, ◌≡◌, refl, ap, ◌∙◌, arith, true, false, List, [], ◌∷◌, Option, none, some,
  if◌then◌else◌, Option-cases, Bool-cases, ◌⊎◌, inl, inr,
}
use libtransmission.Variant.{pos, Variant, int, Entries, end, entry, dict_add}
use libtransmission.Variant.Dict.{
  same_key, dict_index_of, value_at, set_value_at, dict_size, dict_find, bring_front, move_last,
  replace_by_last,
}

pub same_key_self : (k : List ℕ) → same_key k k ≡ true
unfolding same_key
same_key_self [] = refl
same_key_self (x ∷ xs) = ground (arith, same_key_self xs)

same_key_sound : (j k : List ℕ) → same_key j k ≡ true → j ≡ k
unfolding same_key
same_key_sound [] [] h = refl
same_key_sound [] (y ∷ ys) h = ground (arith, h)
same_key_sound (x ∷ xs) [] h = ground (arith, h)
same_key_sound (x ∷ xs) (y ∷ ys) h =
    let tails : same_key xs ys ≡ true = ground (arith, h) in
    let heads : x ≡ y = ground (arith, h) in
    rw heads (ap (λ zs. y ∷ zs) (same_key_sound xs ys tails))

-- One key is not another's when a third tells them apart.
keys_apart : (j k l : List ℕ) → same_key j l ≡ true → same_key k l ≡ true → same_key j k ≡ true
keys_apart j k l hj hk = rw (same_key_sound j l hj) (rw (same_key_sound k l hk) (same_key_self l))

pub keys_sym : (j k : List ℕ) → same_key j k ≡ true → same_key k j ≡ true
keys_sym j k h = keys_apart k j k (same_key_self k) h

-- The first value of the key.
unfoldable pub find : Entries → List ℕ → Option Variant
find end k = none
find (entry j x es) k = if same_key j k then some x else find es k

pub dict_find_first : (es : Entries) (k : List ℕ) → dict_find es k ≡ find es k
unfolding dict_find value_at find dict_index_of
dict_find_first end k = refl
dict_find_first (entry j x es) k = elim (Bool-cases (same_key j k)) [
  | inl e ↦ rw (e, dict_find) refl
  | inr e ↦
      let rest = dict_find_first es k in
      elim (Option-cases (dict_index_of es k)) [
        | inl e' ↦ rw (e, e', dict_find) (ground (arith, rest, e'))
        | inr (i, e') ↦ rw (e, e', dict_find) (ground (arith, rest, e'))
      ]
]

-- The keys are told apart.
abbrev pub IsDistinct : Entries → Type 0
IsDistinct end = Unit {0}
IsDistinct (entry k x es) = (find es k ≡ none) × IsDistinct es

pub find-dict_add_new :
    (es : Entries) (j k : List ℕ) (v : Variant)
    → find es k ≡ none
    → find (dict_add es k v) j ≡ (if same_key k j then some v else find es j)
unfolding find dict_add
find-dict_add_new end j k v new = refl
find-dict_add_new (entry l x es) j k v new =
    ground (arith, find-dict_add_new es j k v, keys_apart l k j)

find-bring_front :
    (k j : List ℕ) (x : Variant) (es : Entries)
    → find es k ≡ none
    → find (bring_front k x es) j ≡ find (entry k x es) j
unfolding find bring_front
find-bring_front k j x end new = refl
find-bring_front k j x (entry l y es) new = ground (arith, keys_apart l k j)

bring_front-IsDistinct :
    (k : List ℕ) (x : Variant) (es : Entries)
    → find es k ≡ none
    → IsDistinct es
    → IsDistinct (bring_front k x es)
unfolding find bring_front
bring_front-IsDistinct k x end new d = (new, d)
bring_front-IsDistinct k x (entry l y es) new (first, d) =
    let other : same_key k l ≡ false = ground (
      arith,
      new,
      keys_apart l k k,
      keys_apart k l l,
      same_key_self k,
      same_key_self l,
      keys_sym k l,
    ) in
    (ground (arith, other, first), (ground (arith, new), d))

pub find-move_last : (es : Entries) (j : List ℕ) → IsDistinct es → find (move_last es) j ≡ find es j
unfolding move_last find
find-move_last end j d = refl
find-move_last (entry k x es) j (new, d) =
    find-bring_front k j x (move_last es) (find-move_last es k d ∙ new)
    ∙ ap (λ t. if same_key k j then some x else t) (find-move_last es j d)

pub move_last-IsDistinct : (es : Entries) → IsDistinct es → IsDistinct (move_last es)
unfolding move_last
move_last-IsDistinct end d = tt
move_last-IsDistinct (entry k x es) (new, d) =
    bring_front-IsDistinct k x (move_last es) (find-move_last es k d ∙ new)
      (move_last-IsDistinct es d)

same_key_swap : (l k j : List ℕ) → same_key l k ≡ true → same_key l j ≡ same_key k j
same_key_swap l k j h = rw (same_key_sound l k h) refl

find_same : (es : Entries) (l j : List ℕ) → same_key l j ≡ true → find es l ≡ find es j
find_same es l j h = rw (same_key_sound l j h) refl

-- What is left without the entry of the index.
pub find_replaced :
    (es : Entries) (k j : List ℕ) (i : ℕ)
    → IsDistinct es
    → dict_index_of es k ≡ some i
    → find (replace_by_last es i) j ≡ (if same_key k j then none else find es j)
unfolding replace_by_last find dict_index_of
find_replaced end k j i d h = ground (arith, h)
find_replaced (entry l x es) k j zero (new, d) h =
    ground (arith, h, new, find-move_last es j d, same_key_swap l k j, find_same es l j)
find_replaced (entry l x es) k j (suc i) (new, d) h =
    ground (arith, h, find_replaced es k j i d, keys_apart l k j)

pub find_set :
    (es : Entries) (k j : List ℕ) (i : ℕ) (v : Variant)
    → dict_index_of es k ≡ some i
    → find (set_value_at es i v) j ≡ (if same_key k j then some v else find es j)
unfolding set_value_at find dict_index_of
find_set end k j i v h = ground (arith, h)
find_set (entry l x es) k j zero v h = ground (arith, h, same_key_swap l k j)
find_set (entry l x es) k j (suc i) v h = ground (arith, h, find_set es k j i v, keys_apart l k j)

pub set_added :
    (es : Entries) (k : List ℕ) (u v : Variant)
    → set_value_at (dict_add es k u) (dict_size es) v ≡ dict_add es k v
unfolding set_value_at dict_add dict_size
set_added end k u v = refl
set_added (entry l x es) k u v = ap (entry l x) (set_added es k u v)

-- An absent key has no index, and one that is there has its value at its index.
pub index_lem :
    (es : Entries) (k : List ℕ)
    → ((dict_index_of es k ≡ none) × (find es k ≡ none))
      ⊎ ((i : ℕ) × (x : Variant) × (dict_index_of es k ≡ some i)
          × (value_at es i ≡ some x)
          × (find es k ≡ some x))
unfolding dict_index_of value_at find
index_lem end k = inl (refl, refl)
index_lem (entry l x es) k = elim (Bool-cases (same_key l k)) [
  | inl e ↦ rw e (inr (0, x, refl, refl, refl))
  | inr e ↦ elim (index_lem es k) [
    | inl (gone, new) ↦ rw (e, gone) (inl (refl, new))
    | inr (i, y, at_i, is_y, found) ↦ rw (e, at_i) (inr (suc i, y, refl, is_y, found))
  ]
]

pub find_put :
    (es : Entries) (k j : List ℕ) (v : Variant)
    → find es k ≡ none
    → find (set_value_at (dict_add es k (int (pos 0))) (dict_size es) v) j
      ≡ (if same_key k j then some v else find es j)
find_put es k j v new = rw (set_added es k (int (pos 0)) v) (find-dict_add_new es j k v new)
