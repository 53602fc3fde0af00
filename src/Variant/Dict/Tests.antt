-- ===== src/Variant/Dict/Tests.antt =====
-- Runs of the changes of a dictionary, and the property at a concrete input.
use libtransmission.Prelude.{ℕ, ◌≡◌, refl, true, false, List, [], ◌∷◌, some, if◌then◌else◌}
use libtransmission.Variant.{pos, int, bool, str, Entries, end, entry, dict_add}
use libtransmission.Variant.Dict.{
  type_of, is_type, same_key, dict_index_of, value_at, set_value_at, dict_size, dict_find,
  bring_front, move_last, replace_by_last, dict_remove, find_or_add, dict_add_scalar,
}
use libtransmission.Variant.Dict.Lookup.{IsDistinct, find}
use libtransmission.Variant.Dict.Added.{dict_find-dict_add_scalar}

abbrev three : Entries
three =
    entry (b'a' ∷ []) (int (pos 1)) (entry (b'b' ∷ []) (bool true) (entry (b'c' ∷ []) (str []) end))

three-IsDistinct : IsDistinct three
unfolding find same_key
three-IsDistinct = (refl, (refl, (refl, tt)))

-- A value of another type moves its entry to the end, and the last one to its place.
other_type_moves :
    dict_add_scalar three (b'a' ∷ []) (bool false)
    ≡ entry
        (b'c' ∷ [])
        (str [])
        (entry (b'b' ∷ []) (bool true) (entry (b'a' ∷ []) (bool false) end))
unfolding dict_add_scalar find_or_add type_of is_type same_key dict_index_of value_at set_value_at
    dict_size bring_front move_last replace_by_last dict_remove dict_add
other_type_moves = refl

-- Two entries of one key: a value of another type is added behind the second, which is found.
twice_not_found :
    dict_find
      (dict_add_scalar (entry [] (int (pos 1)) (entry [] (int (pos 2)) end)) [] (bool true))
      []
    ≡ some (int (pos 2))
unfolding dict_find dict_add_scalar find_or_add type_of is_type same_key dict_index_of value_at
    set_value_at dict_size bring_front move_last replace_by_last dict_remove dict_add
twice_not_found = refl

dict_find-dict_add_scalar_example :
    IsDistinct (dict_add_scalar three (b'a' ∷ []) (bool false))
    × ((j : List ℕ)
        → dict_find (dict_add_scalar three (b'a' ∷ []) (bool false)) j
          ≡ (if same_key (b'a' ∷ []) j then some (bool false) else dict_find three j))
dict_find-dict_add_scalar_example =
    dict_find-dict_add_scalar three (b'a' ∷ []) (bool false) three-IsDistinct
