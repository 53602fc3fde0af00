-- ===== src/Torrent/Files/Overlap.antt =====
-- A file's pieces and blocks are those that share a byte with it.
use native.Mathlib.Nat.{le-div_iff_mul-le, div-lt_iff_lt-mul}
use libtransmission.Prelude.{
  ℕ, zero, suc, ◌+◌, ◌-◌, ◌*◌, ◌/◌, ◌^◌, ◌≤◌, ◌<◌, ◌≡◌, ◌==◌, ◌↔◌, refl, arith, true, false, List,
  [], ◌∷◌, length, take, get_or, u32, u64,
}
use libtransmission.Torrent.{Torrent}
use libtransmission.Torrent.Division.{pred_mul}
use libtransmission.Torrent.Geometry.{IsCut}
use libtransmission.Torrent.Files.{
  TorrentFile, get_byte_piece, init_file_pieces, assign_files, piece_has_file, get_file_block_range,
}

-- Part n of the given size shares a byte with the bytes from `at` on.
abbrev pub Overlaps : ℕ → ℕ → ℕ → ℕ → Type 0
Overlaps size n at len = (n * size < at + len) × (at < (n + 1) * size)

abbrev pub no_file : TorrentFile
no_file = record { file_length = 0; offset = 0; first_piece = 0; last_piece = 0 }

unfoldable pub sum_lengths : List TorrentFile → ℕ
sum_lengths [] = 0
sum_lengths (f ∷ fs) = f.file_length + sum_lengths fs

-- The parts between the first byte's and the last byte's are those that share a byte.
range-Overlaps :
    (size n at len : ℕ)
    → 0 < size
    → 0 < len
    → ((at / size ≤ n) × (n ≤ (at + (len - 1)) / size)) ↔ Overlaps size n at len
range-Overlaps size n at len pos some_len = (
  (λ (first, last). (
    omega (arith, (le-div_iff_mul-le {x = n} {y = at + (len - 1)} pos).0 last),
    (div-lt_iff_lt-mul {x = at} {y = n + 1} pos).0 (omega arith),
  )),
  λ (below, above).
      let first = (div-lt_iff_lt-mul {x = at} {y = n + 1} pos).1 above in
      let last = (le-div_iff_mul-le {x = n} {y = at + (len - 1)} pos).1 (omega arith) in
      (omega arith, last),
)

-- The number of a part that lies below the total fits 32 bits.
part_fits :
    (size count total a : ℕ)
    → 0 < size
    → total ≤ count * size
    → count < 2 ^ 32
    → a < total
    → u32 (a / size) ≡ a / size
part_fits size count total a pos cut fits below =
    let part = (div-lt_iff_lt-mul {x = a} {y = count} pos).1 (omega arith) in omega arith

module _ (t : Torrent) (cut : IsCut t) where
  -- What an assigned file is, and that it lies within the torrent.
  assign_files_at :
      (fs : List TorrentFile) (i at : ℕ)
      → at + sum_lengths fs ≡ t.total_size
      → i < length fs
      → (get_or (assign_files t at fs) i no_file
          ≡ init_file_pieces t
              (record (get_or fs i no_file) { offset = at + sum_lengths (take i fs) }))
        × (at + sum_lengths (take i fs) + (get_or fs i no_file).file_length ≤ t.total_size)
  unfolding assign_files sum_lengths
  assign_files_at [] i at sum inside = absurd (omega arith)
  assign_files_at (f ∷ fs) zero at sum inside =
      let e : at + 0 ≡ at = omega arith in rw e (refl, omega (arith, sum))
  assign_files_at (f ∷ fs) (suc i) at sum inside =
      let fits : u64 (at + f.file_length) ≡ at + f.file_length = omega (arith, cut.size_fits) in
      let rest = assign_files_at fs i (at + f.file_length) (omega arith) (omega arith) in
      let assoc : at + (f.file_length + sum_lengths (take i fs))
          ≡ at + f.file_length + sum_lengths (take i fs) =
        omega arith in
      rw assoc (rw fits rest)

  piece_pos : 0 < t.piece_size
  piece_pos = omega (arith, cut.last_piece_pos, cut.last_piece_le)

  -- The pieces and the blocks are whole counts of their sizes.
  pieces_cover : t.total_size ≤ t.piece_count * t.piece_size
  pieces_cover =
      omega (
        arith,
        cut.piece_sum,
        cut.last_piece_le,
        pred_mul t.piece_count t.piece_size cut.some_piece,
      )

  blocks_cover : t.total_size ≤ t.block_count * t.block_size
  blocks_cover =
      omega (
        arith,
        cut.block_sum,
        cut.last_block_le,
        pred_mul t.block_count t.block_size cut.some_block,
      )

  module _ (f : TorrentFile) (some_len : 0 < f.file_length)
      (inside : f.offset + f.file_length ≤ t.total_size) where
    last_byte_fits : u64 (f.offset + (f.file_length - 1)) ≡ f.offset + (f.file_length - 1)
    last_byte_fits = omega (arith, cut.size_fits)

    byte_piece : (a : ℕ) → a < t.total_size → get_byte_piece t a ≡ a / t.piece_size
    unfolding get_byte_piece
    byte_piece a below = ground (
      arith,
      part_fits t.piece_size t.piece_count t.total_size a piece_pos pieces_cover cut.pieces_fit
          below,
    )

    first_piece_lem : (init_file_pieces t f).first_piece ≡ f.offset / t.piece_size
    unfolding init_file_pieces
    first_piece_lem = byte_piece f.offset (omega arith)

    last_piece_lem :
        (init_file_pieces t f).last_piece ≡ (f.offset + (f.file_length - 1)) / t.piece_size
    unfolding init_file_pieces
    last_piece_lem =
        let some : (f.file_length == 0) ≡ false = ground arith in
        rw some (rw last_byte_fits (byte_piece (f.offset + (f.file_length - 1)) (omega arith)))

    byte_block : (a : ℕ) → a < t.total_size → u32 (a / t.block_size) ≡ a / t.block_size
    byte_block a below =
        part_fits t.block_size t.block_count t.total_size a cut.block_pos blocks_cover
          cut.blocks_fit below

    block_range_lem :
        get_file_block_range t (init_file_pieces t f)
        ≡ (f.offset / t.block_size, (f.offset + (f.file_length - 1)) / t.block_size)
    unfolding get_file_block_range init_file_pieces
    block_range_lem =
        let some : (f.file_length == 0) ≡ false = ground arith in
        rw some (
          rw last_byte_fits (
            rw (byte_block f.offset (omega arith))
              (rw (byte_block (f.offset + (f.file_length - 1)) (omega arith)) refl)))

    pieces-Overlaps :
        (n : ℕ)
        → (piece_has_file n (init_file_pieces t f) ≡ true)
          ↔ Overlaps t.piece_size n f.offset f.file_length
    unfolding piece_has_file
    pieces-Overlaps n =
        let (to, from) = range-Overlaps t.piece_size n f.offset f.file_length piece_pos some_len in
        rw first_piece_lem (
          rw last_piece_lem (
            (λ has. to (ground (arith, has), ground (arith, has))),
            λ over. let (low, high) = from over in ground (arith, low, high),
          ))

  -- In a cut torrent whose files' lengths add up to its total size, the loop of
  -- tr_torrentInitFilePieces places a nonempty file so that pieceHasFile accepts exactly the
  -- pieces that share a byte with it, the files before it coming first, and
  -- tr_torGetFileBlockRange spans exactly the blocks that do.
  pub assign_files-Overlaps :
      (fs : List TorrentFile) (i n : ℕ)
      → sum_lengths fs ≡ t.total_size
      → i < length fs
      → 0 < (get_or fs i no_file).file_length
      → ((piece_has_file n (get_or (assign_files t 0 fs) i no_file) ≡ true)
          ↔ Overlaps t.piece_size n (sum_lengths (take i fs)) (get_or fs i no_file).file_length)
        × ((((get_file_block_range t (get_or (assign_files t 0 fs) i no_file)).0 ≤ n)
              × (n ≤ (get_file_block_range t (get_or (assign_files t 0 fs) i no_file)).1))
            ↔ Overlaps t.block_size n (sum_lengths (take i fs)) (get_or fs i no_file).file_length)
  assign_files-Overlaps fs i n sum inside some_len =
      let start : 0 + sum_lengths (take i fs) ≡ sum_lengths (take i fs) = omega arith in
      let (is_file, ends) = assign_files_at fs i 0 (omega (arith, sum)) inside in
      let f : TorrentFile = record (get_or fs i no_file) { offset = sum_lengths (take i fs) } in
      let is_file' = rw start at is_file in
      rw is_file' (
        pieces-Overlaps f some_len (omega (arith, ends)) n,
        rw (block_range_lem f some_len (omega (arith, ends)))
            (range-Overlaps t.block_size n f.offset f.file_length cut.block_pos some_len),
      )
