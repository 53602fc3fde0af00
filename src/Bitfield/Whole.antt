-- ===== src/Bitfield/Whole.antt =====
-- Operations on a whole bitfield: `tr_bitfieldConstruct`, `tr_bitfieldSetHasAll`,
-- `tr_bitfieldSetHasNone` and `tr_bitfieldSetFromBitfield`.
use libtransmission.Prelude.{
  ℕ, ◌^◌, ◌<◌, ◌≡◌, ◌≢◌, ◌⊎◌, inl, inr, refl, sym, ◌∙◌, arith, [], Bool, true, none, some, false,
  ◌==◌, ℕ_discrete,
}
use libtransmission.Bitfield.{Bitfield, has, has_all, has_none, bytes_needed}
use libtransmission.Bitfield.View.{bytes_needed_bounds}
use libtransmission.Bitfield.Inv.{IsValid, has_allocated, has_unallocated}
use libtransmission.Bitfield.Settle.{Becomes}
use libtransmission.Bitfield.Raw.Install.{set_raw_short, set_raw-Becomes}
use libtransmission.Bitfield.Update.{
  construct, set_has_all, set_has_none, free_array, set_from_bitfield, set_raw,
}

-- A bitfield with no array, and a count that says empty or full, is valid.
no_array :
    (b : Bitfield)
    → 0 < b.bit_count
    → b.bit_count < 2 ^ 31
    → b.bits ≡ []
    → b.alloc_count ≡ 0
    → (b.true_count ≡ 0) ⊎ (b.true_count ≡ b.bit_count)
    → IsValid b
no_array b known small bits alloc count = record {
  array = record {
    sized = ground arith;
    bytes = λ i. ground arith;
    known = known;
    small = small;
    fits = omega arith;
    excess = λ m _. ground arith;
  };
  counted = λ p. absurd (omega arith);
  partial = λ p. absurd (omega arith);
  uniform = λ _. count;
}

module _ (b : Bitfield) (known : 0 < b.bit_count) (small : b.bit_count < 2 ^ 31) where
  -- `tr_bitfieldSetHasNone` leaves no index in the bitfield.
  pub set_has_none-Becomes : Becomes b (set_has_none b) (λ _. false)
  unfolding set_has_none free_array
  set_has_none-Becomes =
      let v = no_array (set_has_none b) known small refl refl (inl refl) in
      record { valid = v; width = refl; holds = λ m _. ground (arith, has_unallocated v m refl) }

  -- `tr_bitfieldSetHasAll` leaves every index in it.
  pub set_has_all-Becomes : Becomes b (set_has_all b) (λ _. true)
  unfolding set_has_all free_array
  set_has_all-Becomes =
      let v = no_array (set_has_all b) known small refl refl (inr refl) in
      record { valid = v; width = refl; holds = λ m _. ground (arith, has_unallocated v m refl) }

-- A constructed bitfield is valid and holds no index.
pub construct_empty :
    (n : ℕ)
    → 0 < n
    → n < 2 ^ 31
    → IsValid (construct n) × ((m : ℕ) → m < n → has (construct n) m ≡ false)
unfolding construct
construct_empty n known small =
    let v = no_array (construct n) known small refl refl (inl refl) in
    (v, λ m _. ground (arith, has_unallocated v m refl))

-- Results are described by any test that agrees with a given one.
becomes :
    {b b' : Bitfield} {p q : ℕ → Bool} → Becomes b b' p → ((m : ℕ) → p m ≡ q m) → Becomes b b' q
becomes c h = record { valid = c.valid; width = c.width; holds = λ m k. c.holds m k ∙ h m }

module _ {src : Bitfield} (v : IsValid src) (b : Bitfield) where
  has_all-unallocated : src.alloc_count ≡ 0 → has_all src ≡ (src.true_count == src.bit_count)
  unfolding has_all
  has_all-unallocated h = ground (arith, v.array.known)

  set_from_bitfield-array :
      0 < src.alloc_count → set_from_bitfield b src ≡ set_raw b src.bits src.alloc_count true
  unfolding set_from_bitfield has_all has_none
  set_from_bitfield-array h = ground (arith, v.array.known, v.partial h)

  set_from_bitfield-all :
      src.alloc_count ≡ 0
      → src.true_count ≡ src.bit_count
      → set_from_bitfield b src ≡ some (set_has_all b)
  unfolding set_from_bitfield has_all has_none
  set_from_bitfield-all h e = ground (arith, v.array.known)

  set_from_bitfield-none :
      src.alloc_count ≡ 0
      → src.true_count ≢ src.bit_count
      → set_from_bitfield b src ≡ some (set_has_none b)
  unfolding set_from_bitfield has_all has_none
  set_from_bitfield-none h e = ground (arith, v.array.known, v.uniform h)

  -- `tr_bitfieldSetFromBitfield` copies a bitfield of the same width whose array is absent or complete.
  pub set_from_bitfield-Becomes :
      b.bit_count ≡ src.bit_count
      → (src.alloc_count ≡ 0) ⊎ (src.alloc_count ≡ bytes_needed src.bit_count)
      → (b' : Bitfield) × (set_from_bitfield b src ≡ some b') × Becomes b b' (has src)
  set_from_bitfield-Becomes e (inl absent) =
      let known : 0 < b.bit_count = rw e v.array.known in
      let small : b.bit_count < 2 ^ 31 = rw e v.array.small in
      elim (ℕ_discrete src.true_count src.bit_count) [
        | yes full ↦
            let c = set_has_all-Becomes b known small in
            (
              set_has_all b,
              set_from_bitfield-all absent full,
              becomes c (λ m. ground (arith, has_unallocated v m absent)),
            )
        | no part ↦
            let c = set_has_none-Becomes b known small in
            (
              set_has_none b,
              set_from_bitfield-none absent part,
              becomes c (λ m. ground (arith, has_unallocated v m absent)),
            )
      ]
  set_from_bitfield-Becomes e (inr whole) =
      let a = v.array in
      let pos : 0 < src.alloc_count = omega (arith, bytes_needed_bounds src.bit_count, a.known) in
      let (b', eq, c) =
        set_raw-Becomes b src.bits (rw e a.known) (rw e a.small) a.bytes (rw e (a.sized ∙ whole)) in
      let count : src.alloc_count ≡ bytes_needed b.bit_count = rw e whole in
      (b', rw (set_from_bitfield-array pos, count) eq, becomes c (λ m. sym (has_allocated v m pos)))

  -- From a bitfield of the same width whose array is shorter than its width needs it fails, on the
  -- assertion of `tr_bitfieldSetRaw`.
  pub set_from_bitfield_short :
      b.bit_count ≡ src.bit_count
      → 0 < src.alloc_count
      → src.alloc_count < bytes_needed src.bit_count
      → set_from_bitfield b src ≡ none
  set_from_bitfield_short e h short =
      rw (set_from_bitfield-array h)
        (set_raw_short b src.bits src.alloc_count (rw e v.array.small) (rw e short))
