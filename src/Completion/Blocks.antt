-- ===== src/Completion/Blocks.antt =====
-- The size counter of `tr_completion` is the number of bytes of the blocks held.
use libtransmission.Prelude.{
  ℕ, zero, suc, ◌+◌, ◌-◌, ◌*◌, ◌≤◌, ◌<◌, ◌≡◌, refl, sym, ap, ◌∙◌, arith, Bool, true, false, inl,
  inr, ◌||◌, ◌==◌, u64, Bool-cases,
}
use libtransmission.Bitfield.{has}
use libtransmission.Bitfield.Inv.{IsValid}
use libtransmission.Bitfield.Settle.{Becomes}
use libtransmission.Bitfield.Single.{add-Becomes}
use libtransmission.Bitfield.Update.{add}
use libtransmission.Torrent.{Torrent, block_count_bytes}
use libtransmission.Torrent.Geometry.{IsCut}
use libtransmission.Completion.{Completion, block_is_complete, block_add}
use libtransmission.Completion.Sizes.{
  sum_from, sum_from_same, sum_from-add, sum_from-le, sum_from_flip,
}

-- The bytes of the first `n` blocks of a torrent, of those that satisfy `p`.
abbrev pub bytes_of : Torrent → (ℕ → Bool) → ℕ
bytes_of t p = sum_from (block_count_bytes t) p 0 t.block_count

module _ (t : Torrent) (c : IsCut t) where
  inner_blocks :
      (s n : ℕ)
      → s + n < t.block_count
      → sum_from (block_count_bytes t) (λ _. true) s n ≡ n * t.block_size
  unfolding sum_from block_count_bytes
  inner_blocks s zero h = omega arith
  inner_blocks s (suc n) h = ground (arith, inner_blocks (s + 1) n (omega arith), c.blocks_fit)

  last_bytes :
      sum_from (block_count_bytes t) (λ _. true) (0 + (t.block_count - 1)) 1 ≡ t.last_block_size
  unfolding sum_from block_count_bytes
  last_bytes = ground (arith, c.blocks_fit, c.some_block)

  -- The blocks of a torrent have as many bytes as it has.
  all_blocks : bytes_of t (λ _. true) ≡ t.total_size
  all_blocks =
      let count : t.block_count - 1 + 1 ≡ t.block_count = omega (arith, c.some_block) in
      let parts =
        rw count at (sum_from-add (block_count_bytes t) (λ _. true) 0 (t.block_count - 1) 1) in
      omega (
        arith,
        parts,
        last_bytes,
        inner_blocks 0 (t.block_count - 1) (omega (arith, c.some_block)),
        c.block_sum,
      )

  pub bytes_of-le : (p : ℕ → Bool) → bytes_of t p ≤ t.total_size
  bytes_of-le p = omega (arith, all_blocks, sum_from-le (block_count_bytes t) p 0 t.block_count)

-- The blocks held are a valid bitfield of the torrent's blocks, and `sizeNow` is their bytes.
pub record IsSized (cp : Completion) : Type 0 where
  pub cut : IsCut cp.tor
  pub valid : IsValid cp.block_bitfield
  pub width : cp.block_bitfield.bit_count ≡ cp.tor.block_count
  pub sized : cp.size_now ≡ bytes_of cp.tor (has cp.block_bitfield)

-- The operation leads to a completion of the same torrent that is sized and holds the blocks with `p`.
pub record Holds (cp cp' : Completion) (p : ℕ → Bool) : Type 0 where
  pub still : IsSized cp'
  pub same_torrent : cp'.tor ≡ cp.tor
  pub blocks : (m : ℕ) → m < cp.tor.block_count → has cp'.block_bitfield m ≡ p m

-- A bitfield changed to `p` and a size counter that sums it.
pub sized_change :
    {cp cp' : Completion} {p : ℕ → Bool}
    → IsSized cp
    → cp'.tor ≡ cp.tor
    → Becomes cp.block_bitfield cp'.block_bitfield p
    → cp'.size_now ≡ bytes_of cp.tor p
    → Holds cp cp' p
sized_change {cp} {cp'} {p} s torrent b size =
    let held : (m : ℕ) → m < cp.tor.block_count → has cp'.block_bitfield m ≡ p m =
      λ m h. b.holds m (rw s.width h) in
    let same : bytes_of cp.tor p ≡ bytes_of cp.tor (has cp'.block_bitfield) =
      sum_from_same (block_count_bytes cp.tor) p (has cp'.block_bitfield) 0 cp.tor.block_count
        (λ i lo hi. sym (held i (omega arith))) in
    record {
      still = record {
        cut = rw torrent s.cut;
        valid = b.valid;
        width = b.width ∙ s.width ∙ sym (ap (λ t. t.block_count) torrent);
        sized = rw torrent (size ∙ same);
      };
      same_torrent = torrent;
      blocks = held;
    }

module _ (cp : Completion) (s : IsSized cp) (b : ℕ) (inside : b < cp.tor.block_count) where
  block_add-absent :
      has cp.block_bitfield b ≡ false
      → ((block_add cp b).block_bitfield ≡ add cp.block_bitfield b)
        × ((block_add cp b).tor ≡ cp.tor)
        × ((block_add cp b).size_now ≡ u64 (cp.size_now + block_count_bytes cp.tor b))
  unfolding block_add block_is_complete
  block_add-absent h = rw h (refl, refl, refl)

  block_add-present : has cp.block_bitfield b ≡ true → block_add cp b ≡ cp
  unfolding block_add block_is_complete
  block_add-present h = rw h refl

  added_bytes :
      has cp.block_bitfield b ≡ false
      → bytes_of cp.tor (λ m. b == m || has cp.block_bitfield m)
        ≡ bytes_of cp.tor (has cp.block_bitfield) + block_count_bytes cp.tor b
  added_bytes absent =
      sum_from_flip (block_count_bytes cp.tor) (has cp.block_bitfield)
        (λ m. b == m || has cp.block_bitfield m) b 0 cp.tor.block_count (omega arith) (omega arith)
        absent (ground arith) (λ i lo hi ne. ground arith)

  -- `tr_cpBlockAdd` of a block of the torrent holds it and what was held, and keeps the size counter
  -- the number of bytes held.
  pub block_add-Holds : Holds cp (block_add cp b) (λ m. b == m || has cp.block_bitfield m)
  block_add-Holds = elim (Bool-cases (has cp.block_bitfield b)) [
    | inl there ↦
        rw (block_add-present there)
          (record { still = s; same_torrent = refl; blocks = λ m h. ground arith })
    | inr absent ↦
        let (bits, torrent, total) = block_add-absent absent in
        let added = add-Becomes s.valid b (rw s.width inside) in
        let sum = added_bytes absent in
        sized_change s torrent (rw bits added) (
          omega (
            arith,
            total,
            sum,
            s.sized,
            bytes_of-le cp.tor s.cut (λ m. b == m || has cp.block_bitfield m),
            s.cut.size_fits,
          ))
  ]
