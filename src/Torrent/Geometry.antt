-- ===== src/Torrent/Geometry.antt =====
-- What `torrentInitFromInfo` computes adds up, as its assertions say.
use native.Mathlib.Nat.{
  mod-lt, div-add-mod, mul_comm, add-mul, mul_assoc, mul-le-mul_right, div-lt_iff_lt-mul,
}
use libtransmission.Prelude.{
  ℕ, zero, suc, ◌+◌, ◌-◌, ◌*◌, ◌/◌, ◌%◌, ◌^◌, ◌≤◌, ◌<◌, ◌≡◌, refl, ℕ_discrete, inl, inr, arith,
  Bool-cases, ltb, u32,
}
use libtransmission.Torrent.{Torrent, max_block_size, halve, get_block_size, init_from_info}
use libtransmission.Torrent.Division.{
  parts, last_part, last_part_bounds, parts_sum, parts_pos, quotient, suc_mul,
}

half_lt : (b fuel : ℕ) → b < max_block_size * 2 ^ suc fuel → b / 2 < max_block_size * 2 ^ fuel
half_lt b fuel h = omega arith

halve-le : (fuel b : ℕ) → b < max_block_size * 2 ^ fuel → halve fuel b ≤ max_block_size
unfolding halve
halve-le zero b h = omega arith
halve-le (suc fuel) b h = elim (Bool-cases (ltb max_block_size b)) [
  | inl e ↦ rw (e, halve) (halve-le fuel (b / 2) (half_lt b fuel h))
  | inr e ↦ rw (e, halve) (ground arith)
]

-- A block size that is not 0 divides the piece size and is at most MAX_BLOCK_SIZE.
pub get_block_size-divides :
    (piece_size : ℕ)
    → piece_size < 2 ^ 32
    → 0 < get_block_size piece_size
    → (piece_size % get_block_size piece_size ≡ 0) × (get_block_size piece_size ≤ max_block_size)
unfolding get_block_size
get_block_size-divides piece_size h pos = ground (arith, halve-le 32 piece_size (omega arith))

-- What parsing a torrent file gives, and what fits the fields.
pub record IsInfo (t : Torrent) : Type 0 where
  pub some_size : 0 < t.total_size
  pub size_fits : t.total_size + 2 ^ 33 < 2 ^ 64
  pub piece_fits : t.piece_size < 2 ^ 30
  pub has_block_size : 0 < get_block_size t.piece_size
  pub pieces : t.piece_count ≡ (t.total_size + t.piece_size - 1) / t.piece_size
  pub pieces_fit : t.piece_count < 2 ^ 32
  pub blocks_fit :
      (t.total_size + get_block_size t.piece_size - 1) / get_block_size t.piece_size < 2 ^ 32
  pub in_piece_fits : t.piece_size / get_block_size t.piece_size < 2 ^ 16

-- The cut of a torrent: whole blocks in a piece, and sums that give the total size and the number of
-- blocks.
pub record IsCut (t : Torrent) : Type 0 where
  pub some_size : 0 < t.total_size
  pub size_fits : t.total_size + 2 ^ 33 < 2 ^ 64
  pub piece_fits : t.piece_size < 2 ^ 30
  pub pieces_fit : t.piece_count < 2 ^ 32
  pub blocks_fit : t.block_count < 2 ^ 32
  pub some_piece : 0 < t.piece_count
  pub some_block : 0 < t.block_count
  pub block_pos : 0 < t.block_size
  pub block_max : t.block_size ≤ max_block_size
  pub piece_blocks : t.block_count_in_piece * t.block_size ≡ t.piece_size
  pub last_piece_pos : 0 < t.last_piece_size
  pub last_piece_le : t.last_piece_size ≤ t.piece_size
  pub last_block_pos : 0 < t.last_block_size
  pub last_block_le : t.last_block_size ≤ t.block_size
  pub piece_sum : (t.piece_count - 1) * t.piece_size + t.last_piece_size ≡ t.total_size
  pub block_sum : (t.block_count - 1) * t.block_size + t.last_block_size ≡ t.total_size
  pub count_sum :
      (t.piece_count - 1) * t.block_count_in_piece + t.block_count_in_last_piece ≡ t.block_count

-- A piece of whole blocks cuts as many blocks as it has, and what the last piece adds.
blocks_sum :
    (whole rest size : ℕ)
    → 0 < size
    → (whole * size + rest + size - 1) / size ≡ whole + (rest + size - 1) / size
blocks_sum whole rest size pos =
    quotient (whole * size + rest + size - 1) size (whole + (rest + size - 1) / size)
      (rw add-mul (omega (arith, div-add-mod (rest + size - 1) size, mod-lt (rest + size - 1) pos)))
      (rw add-mul (omega (arith, div-add-mod (rest + size - 1) size, mod-lt (rest + size - 1) pos)))

module _ (t : Torrent) (i : IsInfo t) where
  abbrev block : ℕ
  block = get_block_size t.piece_size

  block_lem : (t.piece_size % block ≡ 0) × (block ≤ max_block_size)
  block_lem = get_block_size-divides t.piece_size (omega (arith, i.piece_fits)) i.has_block_size

  empty_piece : get_block_size 0 ≡ 0
  unfolding get_block_size halve
  empty_piece = refl

  piece_pos : 0 < t.piece_size
  piece_pos = elim (ℕ_discrete t.piece_size 0) [
    | yes z ↦ let h = rw z at i.has_block_size in omega (arith, empty_piece, h)
    | no nz ↦ omega arith
  ]

  last_piece_size_lem :
      (init_from_info t).last_piece_size ≡ last_part t.total_size t.piece_size piece_pos i.some_size
  unfolding init_from_info last_part
  last_piece_size_lem = ground (arith, piece_pos, i.piece_fits, mod-lt t.total_size piece_pos)

  last_block_size_lem :
      (init_from_info t).last_block_size ≡ last_part t.total_size block i.has_block_size i.some_size
  unfolding init_from_info last_part
  last_block_size_lem =
      ground (arith, i.has_block_size, block_lem, mod-lt t.total_size i.has_block_size)

  block_count_lem :
      (init_from_info t).block_count ≡ parts t.total_size block i.has_block_size i.some_size
  unfolding init_from_info parts
  block_count_lem = ground (arith, i.has_block_size, block_lem, i.size_fits, i.blocks_fit)

  in_piece_lem : (init_from_info t).block_count_in_piece ≡ t.piece_size / block
  unfolding init_from_info
  in_piece_lem = ground (arith, i.has_block_size, i.in_piece_fits)

  in_piece_sum : t.piece_size / block * block ≡ t.piece_size
  in_piece_sum =
      rw (mul_comm (t.piece_size / block) block)
        (omega (arith, div-add-mod t.piece_size block, block_lem))

  last_le : (init_from_info t).last_piece_size ≤ t.piece_size
  last_le =
      rw last_piece_size_lem (last_part_bounds t.total_size t.piece_size piece_pos i.some_size).1

  last_span : (init_from_info t).last_piece_size + block - 1 < 2 ^ 16 * block
  last_span =
      let k : (t.piece_size / block + 1) * block ≤ 2 ^ 16 * block =
        mul-le-mul_right block (omega (arith, i.in_piece_fits)) in
      omega
        (arith, k, suc_mul (t.piece_size / block) block, in_piece_sum, last_le, i.has_block_size)

  wrap_lem : (last : ℕ) → last ≤ t.piece_size → u32 (last + block + 2 ^ 32 - 1) ≡ last + block - 1
  wrap_lem last le = omega (arith, block_lem, i.piece_fits, i.has_block_size)

  last_blocks_lem :
      (init_from_info t).block_count_in_last_piece
      ≡ ((init_from_info t).last_piece_size + block - 1) / block
  unfolding init_from_info
  last_blocks_lem = ground (
    arith,
    i.has_block_size,
    last_le,
    wrap_lem (init_from_info t).last_piece_size last_le,
    (div-lt_iff_lt-mul i.has_block_size).1 last_span,
  )

  pieces_lem : t.piece_count ≡ parts t.total_size t.piece_size piece_pos i.some_size
  unfolding parts
  pieces_lem = i.pieces

  piece_total :
      (t.piece_count - 1) * t.piece_size + (init_from_info t).last_piece_size ≡ t.total_size
  piece_total =
      cc
        (pieces_lem, last_piece_size_lem, parts_sum t.total_size t.piece_size piece_pos i.some_size)

  block_total :
      ((init_from_info t).block_count - 1) * block + (init_from_info t).last_block_size
      ≡ t.total_size
  block_total = cc (
    block_count_lem,
    last_block_size_lem,
    parts_sum t.total_size block i.has_block_size i.some_size,
  )

  total_split :
      (t.piece_count - 1) * (t.piece_size / block) * block + (init_from_info t).last_piece_size
      ≡ t.total_size
  total_split =
      cc (mul_assoc (t.piece_count - 1) (t.piece_size / block) block, in_piece_sum, piece_total)

  parts_lem :
      parts t.total_size block i.has_block_size i.some_size ≡ (t.total_size + block - 1) / block
  unfolding parts
  parts_lem = refl

  block_count_split :
      (init_from_info t).block_count
      ≡ (t.piece_count - 1) * (t.piece_size / block)
        + ((init_from_info t).last_piece_size + block - 1) / block
  block_count_split = cc (
    block_count_lem,
    parts_lem,
    total_split,
    blocks_sum ((t.piece_count - 1) * (t.piece_size / block)) (init_from_info t).last_piece_size
        block i.has_block_size,
  )

  -- `torrentInitFromInfo` of a torrent file's sizes that fit the fields cuts it into pieces and blocks:
  -- its three assertions hold, a piece is a whole number of blocks, and the last piece and the last
  -- block are not empty and at most a whole one.
  pub init_from_info-IsCut : IsCut (init_from_info t)
  unfolding init_from_info
  init_from_info-IsCut = record {
    some_size = i.some_size;
    size_fits = i.size_fits;
    piece_fits = i.piece_fits;
    pieces_fit = i.pieces_fit;
    blocks_fit = omega (arith, block_count_lem, parts_lem, i.blocks_fit);
    some_piece =
        omega (arith, pieces_lem, parts_pos t.total_size t.piece_size piece_pos i.some_size);
    some_block =
        omega (arith, block_count_lem, parts_pos t.total_size block i.has_block_size i.some_size);
    block_pos = i.has_block_size;
    block_max = block_lem.1;
    piece_blocks = cc (in_piece_lem, in_piece_sum);
    last_piece_pos = omega (
      arith,
      last_piece_size_lem,
      last_part_bounds t.total_size t.piece_size piece_pos i.some_size,
    );
    last_piece_le = last_le;
    last_block_pos = omega (
      arith,
      last_block_size_lem,
      last_part_bounds t.total_size block i.has_block_size i.some_size,
    );
    last_block_le = omega (
      arith,
      last_block_size_lem,
      last_part_bounds t.total_size block i.has_block_size i.some_size,
    );
    piece_sum = piece_total;
    block_sum = block_total;
    count_sum = cc (in_piece_lem, last_blocks_lem, block_count_split);
  }
