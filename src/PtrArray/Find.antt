-- ===== src/PtrArray/Find.antt =====
-- `tr_ptrArrayFindSorted` and `tr_ptrArrayRemoveSortedValue` on sorted arrays.
use Prim.Native.Nat.{Ordering, eq}
use native.Mathlib.Numerals.{add-one}
use libtransmission.Prelude.{
  ℕ, suc, ◌<◌, ◌≡◌, ◌↔◌, ◌⊎◌, inl, inr, refl, arith, Bool, true, false, if◌then◌else◌, ltb, List,
  length, Option, none, some, get_elem?, get_elem?-remove_at, get_elem?_beyond, dec_lt,
}
use libtransmission.PtrArray.{
  PtrArray, lower_bound, find_sorted, remove_sorted_value, erase, erase_end,
}
use libtransmission.PtrArray.Search.{Placed, lower_bound-Placed}
use libtransmission.PtrArray.Sorted.{IsOrder, IsSorted, sorted-IsSplit, remove_at-IsSorted}

module _ {ℓ} {A : Type ℓ} (compare : A → A → Ordering) (o : IsOrder compare) where
  -- `x` is an element of the array that equals the key.
  abbrev pub Holds : List A → A → A → Type ℓ
  Holds items ptr x = (i : ℕ) × (get_elem? items i ≡ some x) × (compare x ptr ≡ eq)

  -- A sorted array has one element at most that equals a key.
  only_one :
      (items : List A) (ptr : A) (i j : ℕ) (x y : A)
      → IsSorted compare items
      → get_elem? items i ≡ some x
      → get_elem? items j ≡ some y
      → compare x ptr ≡ eq
      → compare y ptr ≡ eq
      → i ≡ j
  only_one items ptr i j x y s at_i at_j ex ey = ground (
    arith,
    sorted-IsSplit compare o items ptr s i j x y,
    sorted-IsSplit compare o items ptr s j i y x,
  )

  module _ (t : PtrArray A) (ptr : A) (s : IsSorted compare t.items) where
    place : (r : ℕ × Bool) × (lower_bound compare t ptr ≡ some r) × Placed compare t.items ptr r
    place =
        lower_bound-Placed compare t.items ptr (sorted-IsSplit compare o t.items ptr s) t.n_alloc

    find_sorted_sound : (x : A) → find_sorted compare t ptr ≡ some x → Holds t.items ptr x
    unfolding find_sorted
    find_sorted_sound x h = go place
      where
        go :
            (r : ℕ × Bool) × (lower_bound compare t ptr ≡ some r) × Placed compare t.items ptr r
            → Holds t.items ptr x
        go ((p, true), e, (y, at_p, same)) = (p, ground arith, ground arith)
        go ((p, false), e, _) = cc (h, e)

    find_sorted_complete : (x : A) → Holds t.items ptr x → find_sorted compare t ptr ≡ some x
    unfolding find_sorted
    find_sorted_complete x (i, at_i, same) = go place
      where
        go :
            (r : ℕ × Bool) × (lower_bound compare t ptr ≡ some r) × Placed compare t.items ptr r
            → find_sorted compare t ptr ≡ some x
        go ((p, true), e, (y, at_p, same')) =
            ground (arith, only_one t.items ptr i p x y s at_i at_p same same')
        go ((p, false), e, (inside, below, above)) = elim (dec_lt i p) [
          | yes l ↦ cc (below i x l at_i, same)
          | no l ↦ cc (above i x (omega arith) at_i, same)
        ]

    -- In a sorted array, for a comparison that is an order, tr_ptrArrayFindSorted returns
    -- exactly the element that equals the key.
    pub find_sorted_iff : (x : A) → (find_sorted compare t ptr ≡ some x) ↔ Holds t.items ptr x
    find_sorted_iff x = (find_sorted_sound x, find_sorted_complete x)

  module _ (t : PtrArray A) (ptr : A) (s : IsSorted compare t.items) where
    remove-find : (remove_sorted_value compare t ptr).1 ≡ find_sorted compare t ptr
    unfolding remove_sorted_value find_sorted
    remove-find = go (place t ptr s)
      where
        go :
            (r : ℕ × Bool) × (lower_bound compare t ptr ≡ some r) × Placed compare t.items ptr r
            → (remove_sorted_value compare t ptr).1 ≡ find_sorted compare t ptr
        go ((p, true), e, _) = ground (arith, e)
        go ((p, false), e, _) = ground (arith, e)

    remove-IsSorted : IsSorted compare (remove_sorted_value compare t ptr).0.items
    unfolding remove_sorted_value erase erase_end
    remove-IsSorted = go (place t ptr s)
      where
        go :
            (r : ℕ × Bool) × (lower_bound compare t ptr ≡ some r) × Placed compare t.items ptr r
            → IsSorted compare (remove_sorted_value compare t ptr).0.items
        go ((p, true), e, _) =
            rw (e, remove_sorted_value) (rw add-one (remove_at-IsSorted compare o t.items p s))
        go ((p, false), e, _) = rw (e, remove_sorted_value) s

    remove-absent : (y : A) → ¬ Holds (remove_sorted_value compare t ptr).0.items ptr y
    unfolding remove_sorted_value erase erase_end
    remove-absent y (i, at_i, same) = go (place t ptr s) at_i
      where
        go :
            (r : ℕ × Bool) × (lower_bound compare t ptr ≡ some r) × Placed compare t.items ptr r
            → get_elem? (remove_sorted_value compare t ptr).0.items i ≡ some y
            → ⊥
        go ((p, true), e, (x, at_p, same')) at_j =
            let at_e = rw (e, remove_sorted_value) at at_j in
            let at_r = rw add-one at at_e in
            ground (
              arith,
              at_r,
              get_elem?-remove_at t.items p i,
              only_one t.items ptr i p y x s,
              only_one t.items ptr (suc i) p y x s,
            )
        go ((p, false), e, (inside, below, above)) at_j =
            let at_e = rw (e, remove_sorted_value) at at_j in
            elim (dec_lt i p) [
              | yes l ↦ cc (below i y l at_e, same)
              | no l ↦ cc (above i y (omega arith) at_e, same)
            ]

    -- Nothing changed, or exactly the element at one index is gone.
    abbrev pub Removes : PtrArray A → Option A → Type ℓ
    Removes t' removed =
        ((removed ≡ none) × (t' ≡ t))
        ⊎ ((p : ℕ) × (p < length t.items)
            × (removed ≡ get_elem? t.items p)
            × ((j : ℕ)
                → get_elem? t'.items j
                  ≡ (if ltb j p then get_elem? t.items j else get_elem? t.items (suc j))))

    remove-Removes : let (t', removed) = remove_sorted_value compare t ptr in Removes t' removed
    unfolding remove_sorted_value erase erase_end
    remove-Removes = go (place t ptr s)
      where
        go :
            (r : ℕ × Bool) × (lower_bound compare t ptr ≡ some r) × Placed compare t.items ptr r
            → Removes (remove_sorted_value compare t ptr).0 (remove_sorted_value compare t ptr).1
        go ((p, true), e, (x, at_p, same')) =
            rw (e, remove_sorted_value)
              (inr (
                p,
                elim (dec_lt p (length t.items)) [
                  | yes l ↦ l
                  | no l ↦ cc (at_p, get_elem?_beyond t.items p (omega arith))
                ],
                refl,
                λ j. rw add-one (get_elem?-remove_at t.items p j),
              ))
        go ((p, false), e, _) = rw (e, remove_sorted_value) (inl (refl, refl))

    -- Removing by value from a sorted array, for a comparison that is an order, returns what
    -- tr_ptrArrayFindSorted finds; nothing was found and the array is as it was, or exactly
    -- the element returned is gone and those behind it have moved up by one; the array stays
    -- sorted, with no element that equals the key.
    pub remove_sorted_value_lem :
        let (t', removed) = remove_sorted_value compare t ptr in
        (removed ≡ find_sorted compare t ptr)
        × Removes t' removed
        × IsSorted compare t'.items
        × ((y : A) → ¬ Holds t'.items ptr y)
    remove_sorted_value_lem = (remove-find, remove-Removes, remove-IsSorted, remove-absent)
