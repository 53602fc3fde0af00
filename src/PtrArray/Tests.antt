-- ===== src/PtrArray/Tests.antt =====
-- Runs of the sorted array, and its theorems at concrete inputs.
use Prim.Native.Nat.{eq, compare}
use libtransmission.Prelude.{
  ℕ, ◌≤◌, ◌≡◌, ◌≢◌, refl, arith, Bool, true, false, [], ◌∷◌, ◌++◌, some, length, take, drop,
  get_elem?,
}
use libtransmission.PtrArray.{
  PtrArray, negative, insert, insert_position, erase, erase_end, narrow, search_loop, lower_bound,
  find_sorted, remove_sorted_value, insert_sorted,
}
use libtransmission.PtrArray.Search.{Placed, lower_bound-Placed}
use libtransmission.PtrArray.Sorted.{IsOrder, IsSorted, sorted-IsSplit, insert_sorted-IsSorted}
use libtransmission.PtrArray.Find.{Holds, Removes, remove_sorted_value_lem}

abbrev keys : PtrArray ℕ
keys = record { items = 3 ∷ 5 ∷ 8 ∷ 9 ∷ []; n_alloc = 32 }

numbers_IsOrder : IsOrder compare
numbers_IsOrder = record { trans = λ a b c h k. ground arith; flip = λ a b h. ground arith }

keys-IsSorted : IsSorted compare keys.items
keys-IsSorted i j x y h at_i at_j = grind arith

bounds :
    (lower_bound compare keys 8 ≡ some (2, true))
    × (lower_bound compare keys 4 ≡ some (1, false))
    × (lower_bound compare keys 1 ≡ some (0, false))
    × (lower_bound compare keys 12 ≡ some (4, false))
unfolding lower_bound search_loop narrow
bounds = (refl, refl, refl, refl)

inserts :
    ((insert_sorted compare keys 4).0.items ≡ 3 ∷ 4 ∷ 5 ∷ 8 ∷ 9 ∷ [])
    × ((insert keys 1 negative).0.items ≡ 3 ∷ 5 ∷ 8 ∷ 9 ∷ 1 ∷ [])
    × ((remove_sorted_value compare keys 5).0.items ≡ 3 ∷ 8 ∷ 9 ∷ [])
unfolding insert_sorted insert insert_position remove_sorted_value erase erase_end lower_bound
    search_loop narrow
inserts = (refl, refl, refl)

lower_bound-Placed_example :
    (r : ℕ × Bool) × (lower_bound compare keys 4 ≡ some r) × Placed compare keys.items 4 r
lower_bound-Placed_example =
    lower_bound-Placed compare keys.items 4
      (sorted-IsSplit compare numbers_IsOrder keys.items 4 keys-IsSorted) 32

no_four : (i : ℕ) (x : ℕ) → get_elem? keys.items i ≡ some x → compare x 4 ≢ eq
no_four i x h = grind arith

insert_sorted-IsSorted_example :
    let (t', p) = insert_sorted compare keys 4 in
    IsSorted compare t'.items
    × (p ≤ length keys.items)
    × (t'.items ≡ take p keys.items ++ 4 ∷ drop p keys.items)
insert_sorted-IsSorted_example =
    insert_sorted-IsSorted compare numbers_IsOrder keys 4 keys-IsSorted no_four

remove_sorted_value_example :
    let (t', removed) = remove_sorted_value compare keys 5 in
    (removed ≡ find_sorted compare keys 5)
    × Removes compare numbers_IsOrder keys 5 keys-IsSorted t' removed
    × IsSorted compare t'.items
    × ((y : ℕ) → ¬ Holds compare numbers_IsOrder t'.items 5 y)
remove_sorted_value_example = remove_sorted_value_lem compare numbers_IsOrder keys 5 keys-IsSorted
