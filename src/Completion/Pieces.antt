-- ===== src/Completion/Pieces.antt =====
-- Adding and removing the blocks of a piece.
use libtransmission.Prelude.{
  ℕ, zero, suc, ◌+◌, ◌-◌, ◌≤◌, ◌<◌, ◌≡◌, refl, ap, ◌∙◌, arith, Bool, not, ◌||◌, ◌&&◌, leb, ltb,
  ◌==◌, u32, sub64, inl, inr, Bool-cases, ◌^◌,
}
use libtransmission.Bitfield.{has}
use libtransmission.Bitfield.Settle.{Becomes}
use libtransmission.Bitfield.Ranges.Remove.{rem_range-Becomes}
use libtransmission.Bitfield.Update.{rem_range}
use libtransmission.Torrent.{block_piece, block_count_bytes, piece_first_block, piece_last_block}
use libtransmission.Torrent.Blocks.{piece_range_bounds, block_piece-range}
use libtransmission.Completion.{
  Completion, block_is_complete, block_add, add_blocks, piece_add, subtract_blocks, piece_rem,
}
use libtransmission.Completion.Sizes.{sum_from, sum_from_outside}
use libtransmission.Completion.Blocks.{
  bytes_of, bytes_of-le, IsSized, Holds, sized_change, block_add-Holds,
}

abbrev in_range : ℕ → ℕ → ℕ → Bool
in_range i n m = leb i m && ltb m (i + n)

agreeing_blocks :
    {cp cp' : Completion} {p q : ℕ → Bool}
    → Holds cp cp' p
    → ((m : ℕ) → m < cp.tor.block_count → p m ≡ q m)
    → Holds cp cp' q
agreeing_blocks h e = record {
  still = h.still;
  same_torrent = h.same_torrent;
  blocks = λ m l. h.blocks m l ∙ e m l;
}

add_blocks-Holds :
    (n i : ℕ) (cp : Completion)
    → IsSized cp
    → i + n ≤ cp.tor.block_count
    → Holds cp (add_blocks cp i n) (λ m. in_range i n m || has cp.block_bitfield m)
unfolding add_blocks
add_blocks-Holds zero i cp s l = record {
  still = s;
  same_torrent = refl;
  blocks = λ m h. ground arith;
}
add_blocks-Holds (suc n) i cp s l =
    let one = block_add-Holds cp s i (omega arith) in
    let count : (block_add cp i).tor.block_count ≡ cp.tor.block_count =
      ap (λ t. t.block_count) one.same_torrent in
    let rest = add_blocks-Holds n (i + 1) (block_add cp i) one.still (omega (arith, count)) in
    record {
      still = rest.still;
      same_torrent = rest.same_torrent ∙ one.same_torrent;
      blocks = λ m h. ground (arith, rest.blocks m (omega (arith, count)), one.blocks m h);
    }

module _ (cp : Completion) (s : IsSized cp) (p : ℕ) (l : p < cp.tor.piece_count) where
  abbrev first : ℕ
  first = piece_first_block cp.tor p

  abbrev last : ℕ
  last = piece_last_block cp.tor p

  -- The blocks of the range are those of the piece.
  range_piece :
      (m : ℕ)
      → m < cp.tor.block_count
      → in_range first (last + 1 - first) m ≡ (block_piece cp.tor m == p)
  range_piece m h =
      ground (arith, block_piece-range cp.tor s.cut p m l h, piece_range_bounds cp.tor s.cut p l)

  -- `tr_cpPieceAdd` of a piece holds its blocks and what was held, and keeps the size counter the number
  -- of bytes held.
  pub piece_add-Holds :
      Holds cp (piece_add cp p) (λ m. block_piece cp.tor m == p || has cp.block_bitfield m)
  unfolding piece_add
  piece_add-Holds =
      agreeing_blocks
        (add_blocks-Holds (last + 1 - first) first cp s
          (omega (arith, piece_range_bounds cp.tor s.cut p l)))
        (λ m h. ground (arith, range_piece m h))

  -- The loop takes the bytes of the held blocks of its range off the size.
  subtract_blocks-sum :
      (n i size : ℕ)
      → size < 2 ^ 64
      → sum_from (block_count_bytes cp.tor) (has cp.block_bitfield) i n ≤ size
      → subtract_blocks cp size i n
          + sum_from (block_count_bytes cp.tor) (has cp.block_bitfield) i n
        ≡ size
  unfolding subtract_blocks sum_from block_is_complete
  subtract_blocks-sum zero i size small le = omega arith
  subtract_blocks-sum (suc n) i size small le = elim (Bool-cases (has cp.block_bitfield i)) [
    | inl held ↦
        let le' = rw held at le in
        let rest =
          subtract_blocks-sum n (i + 1) (size - block_count_bytes cp.tor i) (omega arith)
            (omega arith) in
        let wrap : sub64 size (block_count_bytes cp.tor i) ≡ size - block_count_bytes cp.tor i =
          omega arith in
        rw (held, wrap) (omega (arith, rest))
    | inr absent ↦
        let le' = rw absent at le in
        let rest = subtract_blocks-sum n (i + 1) size small (omega arith) in
        rw absent (omega (arith, rest))
  ]

  abbrev rest_blocks : ℕ → Bool
  rest_blocks m = not (block_piece cp.tor m == p) && has cp.block_bitfield m

  outside_bytes :
      bytes_of cp.tor rest_blocks
        + sum_from (block_count_bytes cp.tor) (has cp.block_bitfield) first (last + 1 - first)
      ≡ bytes_of cp.tor (has cp.block_bitfield)
  outside_bytes =
      sum_from_outside (block_count_bytes cp.tor) (has cp.block_bitfield) rest_blocks first
        (last + 1 - first) cp.tor.block_count (omega (arith, piece_range_bounds cp.tor s.cut p l))
        (λ i lo. ground (arith, range_piece i, piece_range_bounds cp.tor s.cut p l))
        (λ i lo hi. ground (arith, range_piece i, piece_range_bounds cp.tor s.cut p l))
        (λ i lo hi. ground (arith, range_piece i, piece_range_bounds cp.tor s.cut p l))

  -- The blocks of the piece have fewer bytes than are held.
  piece_le :
      sum_from (block_count_bytes cp.tor) (has cp.block_bitfield) first (last + 1 - first)
      ≤ cp.size_now
  piece_le = omega (arith, outside_bytes, s.sized)

  size_small : cp.size_now < 2 ^ 64
  size_small =
      omega (arith, s.sized, bytes_of-le cp.tor s.cut (has cp.block_bitfield), s.cut.size_fits)

  end_lem : u32 (last + 1) ≡ last + 1
  end_lem = omega (arith, piece_range_bounds cp.tor s.cut p l, s.cut.blocks_fit)

  rem_range-bits :
      Becomes cp.block_bitfield (rem_range cp.block_bitfield first (last + 1)) rest_blocks
  rem_range-bits =
      let bounds = piece_range_bounds cp.tor s.cut p l in
      let done =
        rem_range-Becomes s.valid first (last + 1) (omega (arith, bounds))
          (omega (arith, bounds, s.width)) in
      record {
        valid = done.valid;
        width = done.width;
        holds = λ m h. done.holds m h ∙ ground (arith, bounds, s.width, range_piece m);
      }

  -- `tr_cpPieceRem` of a piece holds what was held but the blocks of the piece, and keeps the size
  -- counter the number of bytes held.
  pub piece_rem-Holds :
      Holds cp (piece_rem cp p) (λ m. not (block_piece cp.tor m == p) && has cp.block_bitfield m)
  unfolding piece_rem
  piece_rem-Holds = sized_change s refl (rw end_lem rem_range-bits) (
      omega (
        arith,
        outside_bytes,
        s.sized,
        subtract_blocks-sum (last + 1 - first) first cp.size_now size_small piece_le,
      ))
