-- ===== src/PtrArray.antt =====
-- src/ptrarray.c: `tr_ptrArray`, a growing array of pointers, and the sorted arrays made of it. The
-- first `n_items` slots are the list `items`; those beyond are never read. A callback of type
-- `PtrArrayCompareFunc` gives the sign of its result.
pub mod Search
pub mod Sorted
pub mod Find
mod Tests
use Prim.Native.Nat.{Ordering, lt, eq, gt}
use libtransmission.Prelude.{
  ℕ, zero, suc, ◌+◌, ◌-◌, ◌*◌, ◌/◌, ◌≤◌, ◌<◌, max, Bool, true, false, ◌||◌, List, [], ◌∷◌, ◌++◌,
  Option, none, some, if◌then◌else◌, ltb, leb, ◌==◌, length, get_elem?, take, drop,
}

pub record PtrArray {ℓ} (A : Type ℓ) : Type ℓ where
  pub items : List A
  pub n_alloc : ℕ

-- `FLOOR`
abbrev pub floor : ℕ
floor = 32

-- An `int` position or bound: a negative one, or a count.
pub data Bound : Type 0 where
  negative : Bound
  at : ℕ → Bound

-- Where `tr_ptrArrayInsert` puts an element: a negative position, or one past the end, means the end.
pub insert_position : ℕ → Bound → ℕ
insert_position n_items negative = n_items
insert_position n_items (at k) = if ltb n_items k then n_items else k

erase_end : ℕ → Bound → ℕ
erase_end n_items negative = n_items
erase_end n_items (at k) = k

-- What the search loop does with one comparison: it stops, or goes on with `first` and `last`.
pub data Move : Type 0 where
  stop : ℕ → Bool → Move
  go : ℕ → ℕ → Move

-- The body of the loop of `tr_ptrArrayLowerBound`, by the sign of `compare (items[first + half], ptr)`.
-- `first + half - 1` can be -1, so `new_last < first` is tested as `first + half < first + 1`.
pub narrow : ℕ → ℕ → Ordering → Move
narrow first last lt =
    let new_first = first + (last - first) / 2 + 1 in
    if ltb last new_first then stop new_first false else go new_first last
narrow first last gt =
    let half = (last - first) / 2 in
    if ltb (first + half) (first + 1) then stop first false else go first (first + half - 1)
narrow first last eq = stop (first + (last - first) / 2) true

module _ {ℓ} {A : Type ℓ} where
  -- `tr_renew` is called when the array is full.
  pub insert : PtrArray A → A → Bound → PtrArray A × ℕ
  insert t ptr pos =
      let n_items = length t.items in
      let k = insert_position n_items pos in
      let grown = if leb t.n_alloc n_items then max floor (t.n_alloc * 2) else t.n_alloc in
      (record { items = take k t.items ++ ptr ∷ drop k t.items; n_alloc = grown }, k)

  pub append : PtrArray A → A → PtrArray A × ℕ
  append t ptr = insert t ptr negative

  pub pop : PtrArray A → PtrArray A × Option A
  pop t = if length t.items == 0 then (t, none) else (
    record t { items = take (length t.items - 1) t.items },
    get_elem? t.items (length t.items - 1),
  )

  -- `tr_ptrArrayErase` on its assertions: `begin < end` and `end <= n_items`.
  pub erase : PtrArray A → ℕ → Bound → PtrArray A
  erase t begin end = record t {
    items = take begin t.items ++ drop (erase_end (length t.items) end) t.items;
  }

  module _ {κ} {B : Type κ} (compare_to : A → B → Ordering) where
    -- The loop, on fuel; `none` is a read out of range or no fuel left.
    pub search_loop : List A → B → ℕ → ℕ → ℕ → Option (ℕ × Bool)
    search_loop items ptr zero first last = none
    search_loop items ptr (suc fuel) first last =
        elim (get_elem? items (first + (last - first) / 2)) [
          | none ↦ none
          | some x ↦ elim (narrow first last (compare_to x ptr)) [
            | stop pos match ↦ some (pos, match)
            | go first' last' ↦ search_loop items ptr fuel first' last'
          ]
        ]

    pub lower_bound : PtrArray A → B → Option (ℕ × Bool)
    lower_bound t ptr =
        if length t.items == 0
        then some (0, false)
        else search_loop t.items ptr (length t.items) 0 (length t.items - 1)

    pub find_sorted : PtrArray A → B → Option A
    find_sorted t ptr = elim (lower_bound t ptr) [
      | none ↦ none
      | some (pos, match) ↦ if match then get_elem? t.items pos else none
    ]

    -- The array and the element removed.
    pub remove_sorted_value : PtrArray A → B → PtrArray A × Option A
    remove_sorted_value t ptr = elim (lower_bound t ptr) [
      | none ↦ (t, none)
      | some (pos, match) ↦
          if match then (erase t pos (at (pos + 1)), get_elem? t.items pos) else (t, none)
    ]

  module _ (compare_to : A → A → Ordering) where
    pub insert_sorted : PtrArray A → A → PtrArray A × ℕ
    insert_sorted t ptr = elim (lower_bound compare_to t ptr) [
      | none ↦ (t, 0)
      | some (pos, match) ↦ insert t ptr (at pos)
    ]
