-- ===== src/PeerMsgs/Reader/Chunks.antt =====
-- Reading does not depend on how the bytes are cut into chunks, and ends.
use libtransmission.Prelude.{
  ℕ, zero, suc, ◌+◌, ◌≤◌, ◌<◌, ◌≡◌, refl, ap, sym, ◌∙◌, arith, List, [], ◌∷◌, ◌++◌, Option, some,
  inl, inr, length, length-append,
}
use mathlib.Core.Path.{subst}
use libtransmission.PeerMsgs.{Env, ReadState, read_now, read_later, read_err, read_abort}
use libtransmission.PeerMsgs.Reader.{
  Msgs, Round, can_read, after_round, read_loop, can_read_wrapper,
}
use libtransmission.PeerMsgs.Reader.Rounds.{IsFramed, Went, extend}
use libtransmission.PeerMsgs.Reader.Outcomes.{can_read-Outcome}

can_read_nothing : (e : Env) (m : Msgs) → can_read e m [] ≡ (m, [], read_later)
unfolding can_read
can_read_nothing e m = refl

later_is_not_now :
    (m m' : Msgs) (a rest : List ℕ) → ◌≡◌ {A = Round} (m, a, read_later) (m', rest, read_now) → ⊥
later_is_not_now m m' a rest h =
    let same : read_later ≡ read_now = ap (λ (r : Round). r.2) h in ground (arith, same)

-- A round that goes on has taken some bytes.
round_next :
    (e : Env) (m m' : Msgs) (a rest : List ℕ)
    → IsFramed m.incoming
    → 0 < length a
    → can_read e m a ≡ (m', rest, read_now)
    → (length rest < length a) × IsFramed m'.incoming
round_next e m m' a rest f nonempty h = elim (can_read-Outcome e m a [] f nonempty) [
  | inl w ↦ absurd (later_is_not_now m m' a rest (sym w ∙ h))
  | inr (inl (m₂, w, _, _)) ↦ absurd (later_is_not_now m₂ m' [] rest (sym w ∙ h))
  | inr (inr (_, went)) ↦ subst (λ r. Went (length a) r) h went
]

-- Two ways to go on that agree on what a round can leave.
after_same :
    (again again' : Msgs → List ℕ → Option Round) (n : ℕ) (r : Round)
    → ((m : Msgs) (buf : List ℕ)
        → IsFramed m.incoming
        → length buf < n
        → again m buf ≡ again' m buf)
    → (r.2 ≡ read_now → (length r.1 < n) × IsFramed r.0.incoming)
    → after_round again r ≡ after_round again' r
unfolding after_round
after_same again again' n (m, [], read_now) ih next = refl
after_same again again' n (m, c ∷ cs, read_now) ih next =
    let (shorter, framed) = next refl in ih m (c ∷ cs) framed shorter
after_same again again' n (m, rest, read_later) ih next = refl
after_same again again' n (m, rest, read_err) ih next = refl
after_same again again' n (m, rest, read_abort) ih next = refl

now_next :
    (e : Env) (m : Msgs) (a : List ℕ)
    → IsFramed m.incoming
    → 0 < length a
    → (can_read e m a).2 ≡ read_now
    → (length (can_read e m a).1 < length a) × IsFramed (can_read e m a).0.incoming
now_next e m a f nonempty h =
    let (m', rest, ret) = can_read e m a in
    round_next e m (can_read e m a).0 a (can_read e m a).1 f nonempty
      (ap (λ (t : ReadState). ((can_read e m a).0, (can_read e m a).1, t)) h)

-- Fuel enough for the bytes is as good as any more.
read_loop_more :
    (e : Env) (n f f' : ℕ) (m : Msgs) (buf : List ℕ)
    → IsFramed m.incoming
    → length buf < n
    → n ≤ suc f
    → n ≤ suc f'
    → read_loop e (suc f) m buf ≡ read_loop e (suc f') m buf
unfolding read_loop after_round
read_loop_more e zero f f' m buf framed l h h' = absurd (omega arith)
read_loop_more e (suc n) f f' m [] framed l h h' = rw (can_read_nothing e m) refl
read_loop_more e (suc n) zero f' m (c ∷ buf) framed l h h' = absurd (omega arith)
read_loop_more e (suc n) (suc f) zero m (c ∷ buf) framed l h h' = absurd (omega arith)
read_loop_more e (suc n) (suc f) (suc f') m (c ∷ buf) framed l h h' =
    after_same (read_loop e (suc f)) (read_loop e (suc f')) n (can_read e m (c ∷ buf))
      (λ m' buf' fr sh. read_loop_more e n f f' m' buf' fr sh (omega arith) (omega arith))
      (λ now. let (sh, fr) = now_next e m (c ∷ buf) framed (omega arith) now in (omega arith, fr))

-- The loop is done again with what a round left, as long as the rounds go on.
pub wrapper_round :
    (e : Env) (m : Msgs) (buf : List ℕ)
    → IsFramed m.incoming
    → 0 < length buf
    → can_read_wrapper e m buf ≡ after_round (can_read_wrapper e) (can_read e m buf)
unfolding can_read_wrapper read_loop
wrapper_round e m [] f nonempty = absurd (omega arith)
wrapper_round e m (c ∷ buf) f nonempty =
    let fuel : length (c ∷ buf) + 1 ≡ suc (suc (length buf)) = omega arith in
    rw fuel (
      after_same (read_loop e (suc (length buf))) (can_read_wrapper e) (suc (length buf))
        (can_read e m (c ∷ buf))
        (λ m' buf' fr sh.
          let fuel' : length buf' + 1 ≡ suc (length buf') = omega arith in
          rw fuel' (
            read_loop_more e (suc (length buf')) (length buf) (length buf') m' buf' fr (omega arith)
              (omega (arith, sh)) (omega arith)))
        (λ now. now_next e m (c ∷ buf) f nonempty now))

-- What more bytes do after the loop.
unfoldable pub and_then : Env → List ℕ → Round → Option Round
and_then e b (m, rest, read_now) = can_read_wrapper e m (rest ++ b)
and_then e b (m, rest, read_later) = can_read_wrapper e m (rest ++ b)
and_then e b (m, rest, read_err) = some (m, rest ++ b, read_err)
and_then e b (m, rest, read_abort) = some (m, rest ++ b, read_abort)

-- The loop ends with a result, and with more bytes it does what the rest of it does with them.
abbrev Splits : Env → Msgs → List ℕ → List ℕ → Type 0
Splits e m a b =
    (r : Round) × (can_read_wrapper e m a ≡ some r)
    × (can_read_wrapper e m (a ++ b) ≡ and_then e b r)

wrapper_nothing : (e : Env) (m : Msgs) → can_read_wrapper e m [] ≡ some (m, [], read_later)
unfolding can_read_wrapper read_loop can_read after_round
wrapper_nothing e m = refl

module _ (e : Env) (m : Msgs) (a b : List ℕ) (c : ℕ) (f : IsFramed m.incoming)
    (nonempty : 0 < length a) where
  round_a :
      (r : Round) → can_read e m a ≡ r → can_read_wrapper e m a ≡ after_round (can_read_wrapper e) r
  round_a r h = wrapper_round e m a f nonempty ∙ ap (after_round (can_read_wrapper e)) h

  round_all :
      (r : Round)
      → can_read e m (a ++ c ∷ b) ≡ r
      → can_read_wrapper e m (a ++ c ∷ b) ≡ after_round (can_read_wrapper e) r
  round_all r h =
      wrapper_round e m (a ++ c ∷ b) f (omega (arith, length-append a (c ∷ b), nonempty))
      ∙ ap (after_round (can_read_wrapper e)) h

  split_round :
      (r : Round)
      → can_read e m a ≡ r
      → can_read e m (a ++ c ∷ b) ≡ extend (c ∷ b) r
      → Went (length a) r
      → ((m' : Msgs) (rest : List ℕ)
          → IsFramed m'.incoming
          → length rest < length a
          → Splits e m' rest (c ∷ b))
      → Splits e m a (c ∷ b)
  unfolding after_round and_then
  split_round (m', [], read_now) h s went ih = ((m', [], read_now), round_a _ h, round_all _ s)
  split_round (m', x ∷ xs, read_now) h s (shorter, framed) ih =
      let (r, here, all) = ih m' (x ∷ xs) framed shorter in
      (r, round_a _ h ∙ here, round_all _ s ∙ all)
  split_round (m', rest, read_later) h s went ih = absurd went
  split_round (m', rest, read_err) h s went ih = ((m', rest, read_err), round_a _ h, round_all _ s)
  split_round (m', rest, read_abort) h s went ih =
      ((m', rest, read_abort), round_a _ h, round_all _ s)

split_lem :
    (e : Env) (n : ℕ) (m : Msgs) (a b : List ℕ) (c : ℕ)
    → IsFramed m.incoming
    → length a < n
    → Splits e m a (c ∷ b)
unfolding and_then after_round
split_lem e zero m a b c f l = absurd (omega arith)
split_lem e (suc n) m [] b c f l = ((m, [], read_later), wrapper_nothing e m, refl)
split_lem e (suc n) m (x ∷ a) b c f l =
    let nonempty : 0 < length (x ∷ a) = omega arith in
    elim (can_read-Outcome e m (x ∷ a) (c ∷ b) f nonempty) [
      | inl w ↦ ((m, x ∷ a, read_later), round_a e m (x ∷ a) b c f nonempty _ w, refl)
      | inr (inl (m', w, framed, s)) ↦ (
        (m', [], read_later),
        round_a e m (x ∷ a) b c f nonempty _ w,
        round_all e m (x ∷ a) b c f nonempty _ s
            ∙ sym (wrapper_round e m' (c ∷ b) framed (omega arith)),
      )
      | inr (inr (s, went)) ↦
          split_round e m (x ∷ a) b c f nonempty _ refl s went
            (λ m' rest framed shorter. split_lem e n m' rest b c framed (omega arith))
    ]

-- For a reader whose fields fit together, canReadWrapper ends on any bytes, and reading some
-- bytes and then more leaves the same reader, peer, downloadedCur and log of calls as reading
-- them all at once: after READ_NOW and READ_LATER it goes on with what was left and the new
-- bytes, and after an error or a crash it leaves both. The charges to the bandwidth, which are
-- made once a round, are no part of this.
pub can_read_wrapper-append :
    (e : Env) (m : Msgs) (a b : List ℕ)
    → IsFramed m.incoming
    → 0 < length b
    → (r : Round) × (can_read_wrapper e m a ≡ some r)
      × (can_read_wrapper e m (a ++ b) ≡ and_then e b r)
can_read_wrapper-append e m a [] f nonempty = absurd (omega arith)
can_read_wrapper-append e m a (c ∷ b) f nonempty =
    split_lem e (suc (length a)) m a b c f (omega arith)
