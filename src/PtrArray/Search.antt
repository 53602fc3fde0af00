-- ===== src/PtrArray/Search.antt =====
-- `tr_ptrArrayLowerBound` finds the place of a key in a sorted array.
use Prim.Native.Nat.{Ordering, lt, eq, gt}
use libtransmission.Prelude.{
  ℕ, zero, suc, ◌+◌, ◌-◌, ◌/◌, ◌≤◌, ◌<◌, ◌≡◌, ◌≢◌, ◌⊎◌, inl, inr, refl, arith, Bool, true, false,
  List, some, length, get_elem?, get_elem?_inside, get_elem?_beyond, dec_lt, ℕ_discrete,
}
use libtransmission.PtrArray.{stop, go, narrow, search_loop, lower_bound}

lt_or_not : (o : Ordering) → (o ≡ lt) ⊎ (o ≢ lt)
lt_or_not lt = inl refl
lt_or_not eq = inr (λ e. cc)
lt_or_not gt = inr (λ e. cc)

sign_cases : (o : Ordering) → (o ≡ lt) ⊎ ((o ≡ eq) ⊎ (o ≡ gt))
sign_cases lt = inl refl
sign_cases eq = inr (inl refl)
sign_cases gt = inr (inr refl)

module _ {ℓ κ} {A : Type ℓ} {B : Type κ} (compare_to : A → B → Ordering) (items : List A)
    (ptr : B) where
  -- Past an element that is not below the key, every element is above it.
  abbrev pub IsSplit : Type ℓ
  IsSplit =
      (i j : ℕ) (x y : A)
      → i < j
      → get_elem? items i ≡ some x
      → get_elem? items j ≡ some y
      → compare_to x ptr ≢ lt
      → compare_to y ptr ≡ gt

  abbrev pub AllBelow : ℕ → Type ℓ
  AllBelow n = (i : ℕ) (x : A) → i < n → get_elem? items i ≡ some x → compare_to x ptr ≡ lt

  abbrev pub AllAbove : ℕ → Type ℓ
  AllAbove n = (i : ℕ) (x : A) → n ≤ i → get_elem? items i ≡ some x → compare_to x ptr ≡ gt

  -- What the search answers: the index of an element equal to the key, or the index before which all
  -- elements are below the key and from which on all are above it.
  abbrev pub Placed : ℕ × Bool → Type ℓ
  Placed (pos, true) = (x : A) × (get_elem? items pos ≡ some x) × (compare_to x ptr ≡ eq)
  Placed (pos, false) = (pos ≤ length items) × AllBelow pos × AllAbove pos

  module _ (split : IsSplit) where
    below_upto :
        (i : ℕ) (x : A) → get_elem? items i ≡ some x → compare_to x ptr ≡ lt → AllBelow (i + 1)
    below_upto i x at h j y lt_j at_j = elim (ℕ_discrete j i) [
      | yes e ↦ ground arith
      | no ne ↦ elim (lt_or_not (compare_to y ptr)) [
        | inl l ↦ l
        | inr k ↦ ground (arith, split j i y x (omega arith) at_j at k)
      ]
    ]

    above_from : (i : ℕ) (x : A) → get_elem? items i ≡ some x → compare_to x ptr ≡ gt → AllAbove i
    above_from i x at h j y le_j at_j = elim (ℕ_discrete i j) [
      | yes e ↦ ground arith
      | no ne ↦ split i j x y (omega arith) at at_j (λ e. cc)
    ]

    module _ (fuel first last : ℕ) (x : A)
        (at : get_elem? items (first + (last - first) / 2) ≡ some x) where
      loop_stops :
          (pos : ℕ) (match : Bool)
          → narrow first last (compare_to x ptr) ≡ stop pos match
          → search_loop compare_to items ptr (suc fuel) first last ≡ some (pos, match)
      unfolding search_loop
      loop_stops pos match h = ground arith

      loop_goes :
          (first' last' : ℕ) (r : ℕ × Bool)
          → narrow first last (compare_to x ptr) ≡ go first' last'
          → search_loop compare_to items ptr fuel first' last' ≡ some r
          → search_loop compare_to items ptr (suc fuel) first last ≡ some r
      unfolding search_loop
      loop_goes first' last' r h e = ground arith

    -- The loop with `first ≤ last` in range and enough fuel finds the place.
    search_loop-Placed :
        (fuel first last : ℕ)
        → first ≤ last
        → last < length items
        → last - first < fuel
        → AllBelow first
        → AllAbove (last + 1)
        → (r : ℕ × Bool) × (search_loop compare_to items ptr fuel first last ≡ some r) × Placed r
    unfolding narrow
    search_loop-Placed zero first last le inside enough below above = absurd (omega arith)
    search_loop-Placed (suc fuel) first last le inside enough below above =
        let half = (last - first) / 2 in
        let (x, at) = get_elem?_inside items (first + half) (omega arith) in
        elim (sign_cases (compare_to x ptr)) [
          | inl less ↦
              let below' = below_upto (first + half) x at less in
              elim (dec_lt last (first + half + 1)) [
                | yes p ↦ (
                  (first + half + 1, false),
                  loop_stops fuel first last x at _ _ (rw less (ground arith)),
                  (omega arith, below', λ i y h. above i y (omega arith)),
                )
                | no p ↦
                    let (r, e, placed) =
                      search_loop-Placed fuel (first + half + 1) last (omega arith) inside
                        (omega arith) below' above in
                    (r, loop_goes fuel first last x at _ _ r (rw less (ground arith)) e, placed)
              ]
          | inr (inl same) ↦ (
            (first + half, true),
            loop_stops fuel first last x at _ _ (rw same (ground arith)),
            (x, at, same),
          )
          | inr (inr more) ↦
              let above' = above_from (first + half) x at more in
              elim (ℕ_discrete half 0) [
                | yes p ↦ (
                  (first, false),
                  loop_stops fuel first last x at _ _ (rw more (ground arith)),
                  (omega arith, below, λ i y h. above' i y (omega arith)),
                )
                | no p ↦
                    let (r, e, placed) =
                      search_loop-Placed fuel first (first + half - 1) (omega arith) (omega arith)
                        (omega arith) below (λ i y h. above' i y (omega arith)) in
                    (r, loop_goes fuel first last x at _ _ r (rw more (ground arith)) e, placed)
              ]
        ]

    -- `tr_ptrArrayLowerBound` on a sorted array always ends, and finds the place of the key.
    pub lower_bound-Placed :
        (n_alloc : ℕ)
        → (r : ℕ × Bool) × (lower_bound compare_to (record { items = items; n_alloc = n_alloc }) ptr
            ≡ some r)
          × Placed r
    unfolding lower_bound
    lower_bound-Placed n_alloc = elim (ℕ_discrete (length items) 0) [
      | yes e ↦ (
        (0, false),
        ground arith,
        (
          omega arith,
          (λ i x h. absurd (omega arith)),
          λ i x h at. ground (arith, get_elem?_beyond items i),
        ),
      )
      | no ne ↦
          let (r, e, placed) =
            search_loop-Placed (length items) 0 (length items - 1) (omega arith) (omega arith)
              (omega arith) (λ i x h. absurd (omega arith))
              (λ i x h at. ground (arith, get_elem?_beyond items i)) in
          (r, ground arith, placed)
    ]
