-- ===== src/Completion/Start.antt =====
-- A new completion, and one made from the blocks of a resume file.
use native.Mathlib.Nat.{add-mul, one-mul, mul-le-mul_right}
use libtransmission.Prelude.{
  ℕ, zero, suc, ◌+◌, ◌-◌, ◌*◌, ◌^◌, ◌≤◌, ◌<◌, ◌≡◌, ◌⊎◌, refl, sym, ◌∙◌, arith, Bool, false, inl,
  inr, bit, some, u64, sub32, sub64, if◌then◌else◌, Bool-cases, count_from, count_from-add,
  count_from-le,
}
use libtransmission.Bitfield.{Bitfield, has, bytes_needed, count_true_bits}
use libtransmission.Bitfield.Inv.{IsValid}
use libtransmission.Bitfield.Queries.{count_true_bits-eq-count_from}
use libtransmission.Bitfield.Update.{construct, set_has_none, free_array, set_from_bitfield}
use libtransmission.Bitfield.Whole.{set_has_none-Becomes, set_from_bitfield-Becomes}
use libtransmission.Torrent.{Torrent, block_count_bytes}
use libtransmission.Torrent.Division.{pred_mul}
use libtransmission.Torrent.Geometry.{IsCut}
use libtransmission.Completion.{Completion, reset, construct_completion, block_init}
use libtransmission.Completion.Sizes.{sum_from, sum_from_same, sum_from_none, sum_from-add}
use libtransmission.Completion.Blocks.{bytes_of, IsSized}

-- `tr_cpConstruct` for a cut torrent makes a completion that holds no block and whose size counter is
-- right.
pub construct_completion-IsSized :
    (cp : Completion)
    → IsCut cp.tor
    → cp.tor.block_count < 2 ^ 31
    → IsSized (construct_completion cp)
      × ((m : ℕ) → m < cp.tor.block_count → has (construct_completion cp).block_bitfield m ≡ false)
unfolding construct_completion reset construct
construct_completion-IsSized cp c small =
    let b = set_has_none-Becomes (construct cp.tor.block_count) c.some_block small in
    (
      record {
        cut = c;
        valid = b.valid;
        width = b.width;
        sized = sym (
            sum_from_same (block_count_bytes cp.tor) _ (λ _. false) 0 cp.tor.block_count
              (λ i lo hi. b.holds i (omega arith))
            ∙ sum_from_none (block_count_bytes cp.tor) 0 cp.tor.block_count);
      },
      b.holds,
    )

module _ (t : Torrent) (c : IsCut t) (p : ℕ → Bool) where
  full_blocks :
      (s n : ℕ)
      → s + n < t.block_count
      → sum_from (block_count_bytes t) p s n ≡ count_from p s n * t.block_size
  unfolding sum_from count_from block_count_bytes
  full_blocks s zero h = omega arith
  full_blocks s (suc n) h = elim (Bool-cases (p s)) [
    | inl held ↦
        rw (held, add-mul, one-mul)
          (ground (arith, full_blocks (s + 1) n (omega arith), c.blocks_fit))
    | inr absent ↦ rw absent (ground (arith, full_blocks (s + 1) n (omega arith)))
  ]

  last_byte :
      sum_from (block_count_bytes t) p (0 + (t.block_count - 1)) 1
      ≡ (if p (0 + (t.block_count - 1)) then t.last_block_size else 0)
  unfolding sum_from block_count_bytes
  last_byte = ground (arith, c.blocks_fit, c.some_block)

  last_count : count_from p (0 + (t.block_count - 1)) 1 ≡ bit (p (0 + (t.block_count - 1)))
  unfolding count_from
  last_count = ground arith

  -- Every block counts as a whole one, less what the last one lacks when it is among them.
  bytes_lem :
      bytes_of t p + (if p (t.block_count - 1) then t.block_size - t.last_block_size else 0)
      ≡ count_from p 0 t.block_count * t.block_size
  bytes_lem =
      let whole : t.block_count - 1 + 1 ≡ t.block_count = omega (arith, c.some_block) in
      let start : 0 + (t.block_count - 1) ≡ t.block_count - 1 = omega arith in
      let bytes = rw whole at (sum_from-add (block_count_bytes t) p 0 (t.block_count - 1) 1) in
      let count = rw whole at (count_from-add p 0 (t.block_count - 1) 1) in
      let inner = full_blocks 0 (t.block_count - 1) (omega (arith, c.some_block)) in
      let byte = rw start at last_byte in
      let one = rw start at last_count in
      let bytes' = rw start at bytes in
      let count' = rw start at count in
      elim (Bool-cases (p (t.block_count - 1))) [
        | inl held ↦
            let byte' = rw held at byte in
            let one' = rw held at one in
            rw (held, count', one', add-mul) (omega (arith, bytes', byte', inner, c.last_block_le))
        | inr absent ↦
            let byte' = rw absent at byte in
            let one' = rw absent at one in
            rw (absent, count', one', add-mul) (omega (arith, bytes', byte', inner))
      ]

  -- The arithmetic of `tr_cpBlockInit` gives those bytes.
  counted_bytes :
      let all = u64 (count_from p 0 t.block_count * t.block_size) in
      (if p (t.block_count - 1) then sub64 all (sub32 t.block_size t.last_block_size) else all)
      ≡ bytes_of t p
  counted_bytes =
      let most : count_from p 0 t.block_count * t.block_size ≤ t.block_count * t.block_size =
        mul-le-mul_right t.block_size (count_from-le p 0 t.block_count) in
      let blocks = pred_mul t.block_count t.block_size c.some_block in
      let fits : count_from p 0 t.block_count * t.block_size < 2 ^ 64 =
        omega (arith, most, blocks, c.block_sum, c.size_fits, c.block_max) in
      ground (arith, fits, bytes_lem, c.last_block_le, c.block_max)

started : Completion → Bitfield → Bitfield → Completion
started cp b held =
    let all = u64 (count_true_bits held * cp.tor.block_size) in
    record (reset cp) {
      block_bitfield = held;
      size_now =
          if has b (cp.tor.block_count - 1)
          then sub64 all (sub32 cp.tor.block_size cp.tor.last_block_size)
          else all;
    }

block_init-started :
    (cp : Completion) (b held : Bitfield)
    → set_from_bitfield (set_has_none cp.block_bitfield) b ≡ some held
    → block_init cp b ≡ some (started cp b held)
unfolding block_init reset started
block_init-started cp b held h = rw (h, block_init) refl

block_init_run :
    (cp : Completion) (b held : Bitfield)
    → set_from_bitfield (set_has_none cp.block_bitfield) b ≡ some held
    → (cp' : Completion) × (block_init cp b ≡ some cp')
      × (cp'.tor ≡ cp.tor)
      × (cp'.block_bitfield ≡ held)
      × (cp'.size_now ≡ (
          let all = u64 (count_true_bits held * cp.tor.block_size) in
          if has b (cp.tor.block_count - 1)
          then sub64 all (sub32 cp.tor.block_size cp.tor.last_block_size)
          else all))
unfolding started reset
block_init_run cp b held h = (started cp b held, block_init-started cp b held h, refl, refl, refl)

-- `tr_cpBlockInit` with a valid bitfield of the torrent's blocks, whose array is absent or complete,
-- succeeds, holds those blocks and sets the size counter to their bytes.
pub block_init-IsSized :
    (cp : Completion) (b : Bitfield)
    → IsCut cp.tor
    → IsValid b
    → b.bit_count ≡ cp.tor.block_count
    → cp.block_bitfield.bit_count ≡ cp.tor.block_count
    → (b.alloc_count ≡ 0) ⊎ (b.alloc_count ≡ bytes_needed b.bit_count)
    → (cp' : Completion) × (block_init cp b ≡ some cp')
      × IsSized cp'
      × ((m : ℕ) → m < cp.tor.block_count → has cp'.block_bitfield m ≡ has b m)
unfolding set_has_none free_array
block_init-IsSized cp b c v width own whole =
    let (held, eq, copy) =
      set_from_bitfield-Becomes v (set_has_none cp.block_bitfield) (own ∙ sym width) whole in
    let (cp', run, torrent, bits, size) = block_init_run cp b held eq in
    let t = cp.tor in
    let w = copy.width ∙ own in
    let count : count_true_bits held ≡ count_from (has held) 0 t.block_count =
      rw (sym w) (count_true_bits-eq-count_from copy.valid) in
    let last = copy.holds (t.block_count - 1) (omega (arith, own, c.some_block)) in
    (
      cp',
      run,
      record {
        cut = rw torrent c;
        valid = rw bits copy.valid;
        width = rw (bits, torrent) w;
        sized = rw (size, torrent, bits, count, sym last) (counted_bytes t c (has held));
      },
      λ m h. rw bits (copy.holds m (rw own h)),
    )
