-- ===== src/PtrArray/Sorted.antt =====
-- The sorted arrays of src/ptrarray.c stay sorted, and find what they hold.
use Prim.Native.Nat.{Ordering, lt, eq, gt}
use libtransmission.Prelude.{
  ℕ, suc, ◌-◌, ◌≤◌, ◌<◌, ◌≡◌, ◌≢◌, ◌⊎◌, inl, inr, refl, ap, arith, Bool, true, false, List, ◌∷◌,
  ◌++◌, some, ltb, length, get_elem?, get_elem?-insert_at, get_elem?-remove_at, take, drop,
}
use libtransmission.PtrArray.{PtrArray, lower_bound, insert, insert_position, insert_sorted}
use libtransmission.PtrArray.Search.{IsSplit, AllBelow, AllAbove, Placed, lower_bound-Placed}

-- What the callers' comparisons satisfy.
pub record IsOrder {ℓ} {A : Type ℓ} (compare : A → A → Ordering) : Type ℓ where
  pub trans : (a b c : A) → compare a b ≡ lt → compare b c ≢ gt → compare a c ≡ lt
  pub flip : (a b : A) → compare a b ≡ gt → compare b a ≡ lt

gt_or_not : (s : Ordering) → (s ≡ gt) ⊎ (s ≢ gt)
gt_or_not gt = inl refl
gt_or_not eq = inr (λ e. cc)
gt_or_not lt = inr (λ e. cc)

module _ {ℓ} {A : Type ℓ} (compare : A → A → Ordering) where
  -- Strictly ascending.
  abbrev pub IsSorted : List A → Type ℓ
  IsSorted items =
      (i j : ℕ) (x y : A)
      → i < j
      → get_elem? items i ≡ some x
      → get_elem? items j ≡ some y
      → compare x y ≡ lt

  module _ (o : IsOrder compare) where
    gt_of_not_lt : (a b p : A) → compare a b ≡ lt → compare a p ≢ lt → compare b p ≡ gt
    gt_of_not_lt a b p ab ap = elim (gt_or_not (compare b p)) [
      | inl h ↦ h
      | inr h ↦ absurd (ap (o.trans a b p ab h))
    ]

    pub sorted-IsSplit : (items : List A) (ptr : A) → IsSorted items → IsSplit compare items ptr
    sorted-IsSplit items ptr s i j x y h at_i at_j not_lt =
        gt_of_not_lt x y ptr (s i j x y h at_i at_j) not_lt

    insert_at-IsSorted :
        (items : List A) (ptr : A) (p : ℕ)
        → IsSorted items
        → p ≤ length items
        → AllBelow compare items ptr p
        → AllAbove compare items ptr p
        → IsSorted (take p items ++ ptr ∷ drop p items)
    insert_at-IsSorted items ptr p s inside below above i j x y h at_i at_j = ground (
      arith,
      get_elem?-insert_at items p i ptr inside,
      get_elem?-insert_at items p j ptr inside,
      s i j x y,
      s i (j - 1) x y,
      s (i - 1) (j - 1) x y,
      below i x,
      above (j - 1) y,
      o.flip y ptr,
    )

    pub remove_at-IsSorted :
        (items : List A) (p : ℕ) → IsSorted items → IsSorted (take p items ++ drop (suc p) items)
    remove_at-IsSorted items p s i j x y h at_i at_j = ground (
      arith,
      get_elem?-remove_at items p i,
      get_elem?-remove_at items p j,
      s i j x y,
      s i (suc j) x y,
      s (suc i) (suc j) x y,
    )

    -- Of a sorted array, `tr_ptrArrayInsertSorted` with an element that equals none in it makes a
    -- sorted array: the same elements with the new one between those below and those above it.
    pub insert_sorted-IsSorted :
        (t : PtrArray A) (ptr : A)
        → IsSorted t.items
        → ((i : ℕ) (x : A) → get_elem? t.items i ≡ some x → compare x ptr ≢ eq)
        → let (t', p) = insert_sorted compare t ptr in
          IsSorted t'.items
          × (p ≤ length t.items)
          × (t'.items ≡ take p t.items ++ ptr ∷ drop p t.items)
    unfolding insert_sorted insert insert_position
    insert_sorted-IsSorted t ptr s fresh =
        go (lower_bound-Placed compare t.items ptr (sorted-IsSplit t.items ptr s) t.n_alloc)
      where
        go :
            (r : ℕ × Bool) × (lower_bound compare t ptr ≡ some r) × Placed compare t.items ptr r
            → let (t', p) = insert_sorted compare t ptr in
              IsSorted t'.items
              × (p ≤ length t.items)
              × (t'.items ≡ take p t.items ++ ptr ∷ drop p t.items)
        go ((p, true), e, (x, at_p, same)) = absurd (fresh p x at_p same)
        go ((p, false), e, (inside, below, above)) =
            let within : ltb (length t.items) p ≡ false = ground arith in
            rw (e, insert_sorted, within)
              (insert_at-IsSorted t.items ptr p s inside below above, inside, refl)
