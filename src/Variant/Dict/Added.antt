-- ===== src/Variant/Dict/Added.antt =====
-- Adding an entry that may be there already.
use libtransmission.Prelude.{
  ℕ, zero, suc, ◌≡◌, refl, ◌∙◌, arith, true, false, List, [], none, some, if◌then◌else◌, ◌==◌,
  Bool-cases, inl, inr,
}
use libtransmission.Variant.{pos, Variant, int, str, Entries, end, entry, dict_add}
use libtransmission.Variant.Dict.{
  type_of, is_type, same_key, dict_index_of, value_at, set_value_at, dict_size, dict_find,
  replace_by_last, dict_remove, find_or_add, dict_add_scalar,
}
use libtransmission.Variant.Dict.Lookup.{
  find, IsDistinct, dict_find_first, index_lem, find_replaced, find_set, find_put, set_added,
  find-dict_add_new, find-move_last, move_last-IsDistinct, same_key_self, keys_sym,
}

set_again :
    (es : Entries) (i : ℕ) (u v : Variant)
    → set_value_at (set_value_at es i u) i v ≡ set_value_at es i v
unfolding set_value_at
set_again end i u v = refl
set_again (entry k x es) zero u v = refl
set_again (entry k x es) (suc i) u v = rw (set_again es i u v) refl

absent_set :
    (es : Entries) (i : ℕ) (v : Variant) (l : List ℕ)
    → find es l ≡ none
    → find (set_value_at es i v) l ≡ none
unfolding set_value_at find
absent_set end i v l h = h
absent_set (entry k x es) zero v l h = ground (arith, h)
absent_set (entry k x es) (suc i) v l h = ground (arith, h, absent_set es i v l)

set-IsDistinct :
    (es : Entries) (i : ℕ) (v : Variant) → IsDistinct es → IsDistinct (set_value_at es i v)
unfolding set_value_at
set-IsDistinct end i v d = tt
set-IsDistinct (entry k x es) zero v d = d
set-IsDistinct (entry k x es) (suc i) v (new, d) =
    (absent_set es i v k new, set-IsDistinct es i v d)

absent_replaced :
    (es : Entries) (i : ℕ) (l : List ℕ)
    → IsDistinct es
    → find es l ≡ none
    → find (replace_by_last es i) l ≡ none
unfolding replace_by_last find
absent_replaced end i l d h = h
absent_replaced (entry k x es) zero l (new, d) h = ground (arith, h, find-move_last es l d)
absent_replaced (entry k x es) (suc i) l (new, d) h = ground (arith, h, absent_replaced es i l d)

replaced-IsDistinct : (es : Entries) (i : ℕ) → IsDistinct es → IsDistinct (replace_by_last es i)
unfolding replace_by_last
replaced-IsDistinct end i d = tt
replaced-IsDistinct (entry k x es) zero (new, d) = move_last-IsDistinct es d
replaced-IsDistinct (entry k x es) (suc i) (new, d) =
    (absent_replaced es i k d new, replaced-IsDistinct es i d)

dict_add-IsDistinct :
    (es : Entries) (k : List ℕ) (v : Variant)
    → find es k ≡ none
    → IsDistinct es
    → IsDistinct (dict_add es k v)
unfolding dict_add find
dict_add-IsDistinct end k v h d = (refl, tt)
dict_add-IsDistinct (entry l x es) k v h (new, d) = (
  ground (arith, h, new, find-dict_add_new es l k v, keys_sym k l),
  dict_add-IsDistinct es k v (ground (arith, h)) d,
)

-- The entries in which a value was put: distinct again, and found there and nowhere else.
abbrev pub Put : Entries → List ℕ → Variant → Entries → Type 0
Put es k v after =
    IsDistinct after × ((j : List ℕ) → find after j ≡ (if same_key k j then some v else find es j))

Put-new :
    (es : Entries) (k : List ℕ) (v : Variant)
    → IsDistinct es
    → find es k ≡ none
    → Put es k v (set_value_at (dict_add es k (int (pos 0))) (dict_size es) v)
Put-new es k v d new = (
  rw (set_added es k (int (pos 0)) v) (dict_add-IsDistinct es k v new d),
  λ j. find_put es k j v new,
)

Put-over :
    (es : Entries) (k : List ℕ) (v : Variant) (i : ℕ)
    → IsDistinct es
    → dict_index_of es k ≡ some i
    → Put es k v (set_value_at es i v)
Put-over es k v i d at_i = (set-IsDistinct es i v d, λ j. find_set es k j i v at_i)

Put-after_remove :
    (es : Entries) (k : List ℕ) (v : Variant) (i : ℕ)
    → IsDistinct es
    → dict_index_of es k ≡ some i
    → Put es k v (
        set_value_at
          (dict_add (replace_by_last es i) k (int (pos 0)))
          (dict_size (replace_by_last es i))
          v)
Put-after_remove es k v i d at_i =
    let gone : find (replace_by_last es i) k ≡ none =
      find_replaced es k k i d at_i ∙ (rw (same_key_self k) refl) in
    let put = Put-new (replace_by_last es i) k v (replaced-IsDistinct es i d) gone in
    (put.0, λ j. ground (arith, put.1 j, find_replaced es k j i d at_i))

same-Put : (es a b : Entries) (k : List ℕ) (v : Variant) → a ≡ b → Put es k v b → Put es k v a
same-Put es a b k v same put = rw same put

-- The three ways that it is done.
add_absent :
    (es : Entries) (k : List ℕ) (v : Variant)
    → dict_index_of es k ≡ none
    → dict_add_scalar es k v ≡ set_value_at (dict_add es k (int (pos 0))) (dict_size es) v
unfolding dict_add_scalar find_or_add
add_absent es k v gone = rw (gone, find_or_add) refl

add_over :
    (es : Entries) (k : List ℕ) (v : Variant) (i : ℕ)
    → dict_index_of es k ≡ some i
    → is_type (value_at es i) (type_of v) ≡ true
    → dict_add_scalar es k v ≡ set_value_at es i v
unfolding dict_add_scalar find_or_add
add_over es k v i at_i typed = elim (Bool-cases (type_of v == 2)) [
  | inl text ↦ rw (at_i, find_or_add) (rw (typed, text) (set_again es i (str []) v))
  | inr other ↦ rw (at_i, find_or_add) (rw (typed, other) refl)
]

remove_at :
    (es : Entries) (k : List ℕ) (i : ℕ)
    → dict_index_of es k ≡ some i
    → dict_remove es k ≡ (replace_by_last es i, true)
unfolding dict_remove
remove_at es k i at_i = rw (at_i, dict_remove) refl

add_other_type :
    (es : Entries) (k : List ℕ) (v : Variant) (i : ℕ)
    → dict_index_of es k ≡ some i
    → is_type (value_at es i) (type_of v) ≡ false
    → dict_add_scalar es k v
      ≡ set_value_at
          (dict_add (replace_by_last es i) k (int (pos 0)))
          (dict_size (replace_by_last es i))
          v
unfolding dict_add_scalar find_or_add
add_other_type es k v i at_i typed =
    rw (at_i, find_or_add) (rw typed (rw (remove_at es k i at_i) refl))

dict_add_scalar-Put :
    (es : Entries) (k : List ℕ) (v : Variant) → IsDistinct es → Put es k v (dict_add_scalar es k v)
dict_add_scalar-Put es k v d = elim (index_lem es k) [
  | inl (gone, new) ↦ same-Put es _ _ k v (add_absent es k v gone) (Put-new es k v d new)
  | inr (i, x, at_i, is_x, found) ↦ elim (Bool-cases (is_type (value_at es i) (type_of v))) [
    | inr e ↦
        same-Put es _ _ k v (add_other_type es k v i at_i e) (Put-after_remove es k v i d at_i)
    | inl e ↦ same-Put es _ _ k v (add_over es k v i at_i e) (Put-over es k v i d at_i)
  ]
]

-- In a dictionary without repeated keys, tr_variantDictAddInt, Bool, Real and Raw keep the keys
-- apart, and tr_variantDictFind then finds the stored value at its key and at every other key
-- what it found before.
pub dict_find-dict_add_scalar :
    (es : Entries) (k : List ℕ) (v : Variant)
    → IsDistinct es
    → IsDistinct (dict_add_scalar es k v)
      × ((j : List ℕ)
          → dict_find (dict_add_scalar es k v) j
            ≡ (if same_key k j then some v else dict_find es j))
dict_find-dict_add_scalar es k v d =
    let (distinct, found) = dict_add_scalar-Put es k v d in
    (
      distinct,
      λ j. rw (dict_find_first (dict_add_scalar es k v) j) (rw (dict_find_first es j) (found j)),
    )
