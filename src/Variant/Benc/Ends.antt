-- ===== src/Variant/Benc/Ends.antt =====
-- The parser's loop ends: each round takes a byte at least.
use libtransmission.Prelude.{
  ℕ, zero, suc, ◌+◌, ◌≤◌, ◌<◌, ◌≡◌, arith, Bool-cases, true, false, none, List, [], ◌∷◌, Option,
  some, length, drop, length-drop, Option-cases, inl, inr,
}
use libtransmission.Variant.{Variant, ℤ}
use libtransmission.Variant.Benc.{
  Numbers, Parser, start, index_of, parse_int, parse_str, parse_step, no_frames, finish, parse_loop,
  parse_benc,
}

module _ (num : Numbers) where
  -- What is left after a number, and after a string.
  parse_int_shorter :
      (rest rest' : List ℕ) (n : ℤ)
      → parse_int num rest ≡ some (n, rest')
      → length rest' ≤ length rest
  unfolding parse_int
  parse_int_shorter rest rest' n h = elim (Option-cases (index_of b'e' rest)) [
    | inl e ↦ ground (arith, e)
    | inr (i, e) ↦ ground (arith, e, length-drop (i + 1) rest)
  ]

  parse_str_shorter :
      (c : ℕ) (rest s rest' : List ℕ)
      → parse_str num (c ∷ rest) ≡ some (s, rest')
      → length rest' ≤ length rest
  unfolding parse_str
  parse_str_shorter c rest s rest' h = elim (Option-cases (index_of b':' (c ∷ rest))) [
    | inl e ↦ ground (arith, e)
    | inr (i, e) ↦ elim (Option-cases (num.strtoul (c ∷ rest))) [
      | inl e' ↦ ground (arith, e, e')
      | inr ((len, ulend), e') ↦
          ground (
            arith,
            e,
            e',
            length-drop (i + 1) (c ∷ rest),
            length-drop len (drop (i + 1) (c ∷ rest)),
          )
    ]
  ]

  -- A round takes its first byte, at least.
  parse_step_shorter :
      (p p' : Parser) (c : ℕ) (rest rest' : List ℕ)
      → parse_step num p c rest ≡ some (p', rest')
      → length rest' ≤ length rest
  unfolding parse_step
  parse_step_shorter p p' c rest rest' h = elim (Option-cases (parse_int num rest)) [
    | inl e ↦ elim (Option-cases (parse_str num (c ∷ rest))) [
      | inl f ↦ ground (arith, e, f)
      | inr ((s, r), f) ↦ ground (arith, e, f, parse_str_shorter c rest s r f)
    ]
    | inr ((n, q), e) ↦ elim (Option-cases (parse_str num (c ∷ rest))) [
      | inl f ↦ ground (arith, e, f, parse_int_shorter rest q n e)
      | inr ((s, r), f) ↦
          ground (arith, e, f, parse_int_shorter rest q n e, parse_str_shorter c rest s r f)
    ]
  ]

  -- The rounds that the loop takes until it stops, and what it stops with: at the end of the text, at an
  -- error, or when all containers are closed.
  pub data Runs : Parser → List ℕ → ℕ → Option (Variant × List ℕ) → Type 0 where
    text_ends : (p : Parser) → Runs p [] 0 (finish num p [])
    fails :
        (p : Parser) (c : ℕ) (rest : List ℕ)
        → parse_step num p c rest ≡ none
        → Runs p (c ∷ rest) 1 none
    closes :
        (p p' : Parser) (c : ℕ) (rest rest' : List ℕ)
        → parse_step num p c rest ≡ some (p', rest')
        → no_frames num p'.stack ≡ true
        → Runs p (c ∷ rest) 1 (finish num p' rest')
    goes_on :
        (p p' : Parser) (c k : ℕ) (rest rest' : List ℕ) (r : Option (Variant × List ℕ))
        → parse_step num p c rest ≡ some (p', rest')
        → no_frames num p'.stack ≡ false
        → Runs p' rest' k r
        → Runs p (c ∷ rest) (suc k) r

  loop-Runs :
      (fuel : ℕ) (p : Parser) (buf : List ℕ)
      → length buf < fuel
      → (k : ℕ) × (k ≤ length buf) × Runs p buf k (parse_loop num fuel p buf)
  unfolding parse_loop
  loop-Runs zero p buf h = absurd (omega (arith, h))
  loop-Runs (suc fuel) p [] h = (0, omega arith, text_ends p)
  loop-Runs (suc fuel) p (c ∷ rest) h = elim (Option-cases (parse_step num p c rest)) [
    | inl e ↦ rw (e, parse_loop) (1, omega arith, fails p c rest e)
    | inr ((p', rest'), e) ↦ elim (Bool-cases (no_frames num p'.stack)) [
      | inl closed ↦
          rw (e, parse_loop) (rw closed (1, omega arith, closes p p' c rest rest' e closed))
      | inr left ↦
          let shorter = parse_step_shorter p p' c rest rest' e in
          let (k, few, runs) = loop-Runs fuel p' rest' (omega (arith, h, shorter)) in
          rw (e, parse_loop)
            (rw left
              (suc k, omega (arith, few, shorter), goes_on p p' c k rest rest' _ e left runs))
    ]
  ]

  -- The loop of tr_variantParseBenc stops after at most as many rounds as the text has bytes,
  -- by itself: at the end of the text, at an error or when all containers are closed, and
  -- tr_variantParseBenc has the result that it stops with.
  pub parse_benc-Runs :
      (buf : List ℕ) → (k : ℕ) × (k ≤ length buf) × Runs start buf k (parse_benc num buf)
  unfolding parse_benc
  parse_benc-Runs buf = loop-Runs (length buf + 1) start buf (omega arith)
