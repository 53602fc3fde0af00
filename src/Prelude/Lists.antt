-- ===== src/Prelude/Lists.antt =====
-- Lists measured and indexed by native numbers, under the library's names.
use Prim.Native.Nat.{ℕ, zero, suc, ◌+◌, ◌-◌, ◌≤◌, ◌<◌, min}
use mathlib.Core.Path.{◌≡◌, refl, ap}
use mathlib.Core.Logic.{◌≢◌}
use mathlib.Core.List.{List, [], ◌∷◌, ◌++◌, map}
use mathlib.Core.Option.{Option, none, some}
use native.Mathlib.Omega.{arith}
use mathlib.Core.Bool.{◌&&◌}
use libtransmission.Prelude.Tests.{if◌then◌else◌, ltb, leb, ◌==◌}

module _ {ℓ} {A : Type ℓ} where
  abbrev pub length : List A → ℕ
  length [] = 0
  length (x ∷ xs) = suc (length xs)

  abbrev pub get_elem? : List A → ℕ → Option A
  get_elem? [] i = none
  get_elem? (x ∷ xs) zero = some x
  get_elem? (x ∷ xs) (suc i) = get_elem? xs i

  -- A write out of bounds changes nothing.
  abbrev pub set : List A → ℕ → A → List A
  set [] i v = []
  set (x ∷ xs) zero v = v ∷ xs
  set (x ∷ xs) (suc i) v = x ∷ set xs i v

  pub length-append : (xs ys : List A) → length (xs ++ ys) ≡ length xs + length ys
  length-append [] ys = omega arith
  length-append (x ∷ xs) ys = omega (arith, length-append xs ys)

module _ {ℓ} {A : Type ℓ} where
  pub length-set : (xs : List A) (i : ℕ) (v : A) → length (set xs i v) ≡ length xs
  length-set [] i v = refl
  length-set (x ∷ xs) zero v = refl
  length-set (x ∷ xs) (suc i) v = ap suc (length-set xs i v)

  pub get_elem?-set_self :
      (xs : List A) (i : ℕ) (v : A) → i < length xs → get_elem? (set xs i v) i ≡ some v
  get_elem?-set_self [] i v h = elim h [ ]
  get_elem?-set_self (x ∷ xs) zero v h = refl
  get_elem?-set_self (x ∷ xs) (suc i) v h = get_elem?-set_self xs i v (omega arith)

  pub get_elem?-set_ne :
      (xs : List A) {i j : ℕ} (v : A) → i ≢ j → get_elem? (set xs i v) j ≡ get_elem? xs j
  get_elem?-set_ne [] v h = refl
  get_elem?-set_ne (x ∷ xs) {i = zero} {j = zero} v h = absurd (h refl)
  get_elem?-set_ne (x ∷ xs) {i = zero} {j = suc j} v h = refl
  get_elem?-set_ne (x ∷ xs) {i = suc i} {j = zero} v h = refl
  get_elem?-set_ne (x ∷ xs) {i = suc i} {j = suc j} v h = get_elem?-set_ne xs v (λ e. h (ap suc e))

module _ {ℓ} {A : Type ℓ} where
  abbrev pub get_or : List A → ℕ → A → A
  get_or [] i d = d
  get_or (x ∷ xs) zero d = x
  get_or (x ∷ xs) (suc i) d = get_or xs i d

  abbrev pub take : ℕ → List A → List A
  take zero xs = []
  take (suc n) [] = []
  take (suc n) (x ∷ xs) = x ∷ take n xs

  abbrev pub drop : ℕ → List A → List A
  drop zero xs = xs
  drop (suc n) [] = []
  drop (suc n) (x ∷ xs) = drop n xs

  abbrev pub replicate : ℕ → A → List A
  replicate zero a = []
  replicate (suc n) a = a ∷ replicate n a

  pub take-append-drop : (n : ℕ) (xs : List A) → take n xs ++ drop n xs ≡ xs
  take-append-drop zero xs = refl
  take-append-drop (suc n) [] = refl
  take-append-drop (suc n) (x ∷ xs) = rw (take-append-drop n xs)

  pub length-take : (n : ℕ) (xs : List A) → length (take n xs) ≡ min n (length xs)
  length-take zero xs = omega arith
  length-take (suc n) [] = omega arith
  length-take (suc n) (x ∷ xs) = omega (arith, length-take n xs)

  pub length-drop : (n : ℕ) (xs : List A) → length (drop n xs) ≡ length xs - n
  length-drop zero xs = omega arith
  length-drop (suc n) [] = omega arith
  length-drop (suc n) (x ∷ xs) = omega (arith, length-drop n xs)

  pub length-replicate : (n : ℕ) (a : A) → length (replicate n a) ≡ n
  length-replicate zero a = refl
  length-replicate (suc n) a = ap suc (length-replicate n a)

  pub length-map {κ} : {B : Type κ} (xs : List A) (f : A → B) → length (map f xs) ≡ length xs
  length-map [] f = refl
  length-map (x ∷ xs) f = ap suc (length-map xs f)

  -- `memset (xs + off, v, n)`
  abbrev pub memset : List A → ℕ → ℕ → A → List A
  memset [] off n v = []
  memset (x ∷ xs) zero zero v = x ∷ xs
  memset (x ∷ xs) zero (suc n) v = v ∷ memset xs zero n v
  memset (x ∷ xs) (suc off) n v = x ∷ memset xs off n v

  -- `memcpy (xs, ys, n)`
  abbrev pub memcpy : List A → List A → ℕ → List A
  memcpy xs ys zero = xs
  memcpy [] ys (suc n) = []
  memcpy (x ∷ xs) [] (suc n) = x ∷ xs
  memcpy (x ∷ xs) (y ∷ ys) (suc n) = y ∷ memcpy xs ys n

  pub length-memset : (xs : List A) (off n : ℕ) (v : A) → length (memset xs off n v) ≡ length xs
  length-memset [] off n v = refl
  length-memset (x ∷ xs) zero zero v = refl
  length-memset (x ∷ xs) zero (suc n) v = ap suc (length-memset xs zero n v)
  length-memset (x ∷ xs) (suc off) n v = ap suc (length-memset xs off n v)

  pub get_or-set :
      (xs : List A) (i j : ℕ) (v d : A)
      → i < length xs
      → get_or (set xs i v) j d ≡ (if i == j then v else get_or xs j d)
  get_or-set [] i j v d h = absurd (omega arith)
  get_or-set (x ∷ xs) zero zero v d h = refl
  get_or-set (x ∷ xs) zero (suc j) v d h = ground arith
  get_or-set (x ∷ xs) (suc i) zero v d h = ground arith
  get_or-set (x ∷ xs) (suc i) (suc j) v d h = ground (arith, get_or-set xs i j v d)

  pub get_or-memset :
      (xs : List A) (off n j : ℕ) (v d : A)
      → off + n ≤ length xs
      → get_or (memset xs off n v) j d ≡ (if leb off j && ltb j (off + n) then v else get_or xs j d)
  get_or-memset [] off n j v d h = ground arith
  get_or-memset (x ∷ xs) zero zero j v d h = ground arith
  get_or-memset (x ∷ xs) zero (suc n) zero v d h = ground arith
  get_or-memset (x ∷ xs) zero (suc n) (suc j) v d h = ground (arith, get_or-memset xs zero n j v d)
  get_or-memset (x ∷ xs) (suc off) n zero v d h = ground arith
  get_or-memset (x ∷ xs) (suc off) n (suc j) v d h = ground (arith, get_or-memset xs off n j v d)

  -- Growing an array by its default changes no element.
  pub get_or-append_replicate :
      (xs : List A) (n j : ℕ) (d : A) → get_or (xs ++ replicate n d) j d ≡ get_or xs j d
  get_or-append_replicate [] zero j d = refl
  get_or-append_replicate [] (suc n) zero d = refl
  get_or-append_replicate [] (suc n) (suc j) d = get_or-append_replicate [] n j d
  get_or-append_replicate (x ∷ xs) n zero d = refl
  get_or-append_replicate (x ∷ xs) n (suc j) d = get_or-append_replicate xs n j d

  pub get_or_beyond : (xs : List A) (j : ℕ) (d : A) → length xs ≤ j → get_or xs j d ≡ d
  get_or_beyond [] j d h = refl
  get_or_beyond (x ∷ xs) zero d h = absurd (omega arith)
  get_or_beyond (x ∷ xs) (suc j) d h = get_or_beyond xs j d (omega arith)

  pub get_or-take :
      (n : ℕ) (xs : List A) (j : ℕ) (d : A)
      → get_or (take n xs) j d ≡ (if ltb j n then get_or xs j d else d)
  get_or-take zero xs j d = ground arith
  get_or-take (suc n) [] j d = ground arith
  get_or-take (suc n) (x ∷ xs) zero d = ground arith
  get_or-take (suc n) (x ∷ xs) (suc j) d = ground (arith, get_or-take n xs j d)

  pub length-append_replicate :
      (xs : List A) (n : ℕ) (d : A) → length (xs ++ replicate n d) ≡ length xs + n
  length-append_replicate xs n d =
      omega (arith, length-append xs (replicate n d), length-replicate n d)

  pub get_or-replicate : (n j : ℕ) (d : A) → get_or (replicate n d) j d ≡ d
  get_or-replicate n j d = get_or-append_replicate [] n j d

  pub length-memcpy : (xs ys : List A) (n : ℕ) → length (memcpy xs ys n) ≡ length xs
  length-memcpy xs ys zero = refl
  length-memcpy [] ys (suc n) = refl
  length-memcpy (x ∷ xs) [] (suc n) = refl
  length-memcpy (x ∷ xs) (y ∷ ys) (suc n) = ap suc (length-memcpy xs ys n)

  pub get_or-memcpy :
      (xs ys : List A) (n j : ℕ) (d : A)
      → n ≤ length xs
      → n ≤ length ys
      → get_or (memcpy xs ys n) j d ≡ (if ltb j n then get_or ys j d else get_or xs j d)
  get_or-memcpy xs ys zero j d h k = ground arith
  get_or-memcpy [] ys (suc n) j d h k = absurd (omega arith)
  get_or-memcpy (x ∷ xs) [] (suc n) j d h k = absurd (omega arith)
  get_or-memcpy (x ∷ xs) (y ∷ ys) (suc n) zero d h k = ground arith
  get_or-memcpy (x ∷ xs) (y ∷ ys) (suc n) (suc j) d h k = ground (arith, get_or-memcpy xs ys n j d)

  pub take-length : (xs : List A) → take (length xs) xs ≡ xs
  take-length [] = refl
  take-length (x ∷ xs) = ap (λ ys. x ∷ ys) (take-length xs)

  pub get_elem?_inside : (xs : List A) (i : ℕ) → i < length xs → (x : A) × (get_elem? xs i ≡ some x)
  get_elem?_inside [] i h = absurd (omega arith)
  get_elem?_inside (x ∷ xs) zero h = (x, refl)
  get_elem?_inside (x ∷ xs) (suc i) h = get_elem?_inside xs i (omega arith)

  pub get_elem?_beyond : (xs : List A) (i : ℕ) → length xs ≤ i → get_elem? xs i ≡ none
  get_elem?_beyond [] i h = refl
  get_elem?_beyond (x ∷ xs) zero h = absurd (omega arith)
  get_elem?_beyond (x ∷ xs) (suc i) h = get_elem?_beyond xs i (omega arith)

  pub get_elem?-insert_at :
      (xs : List A) (p j : ℕ) (z : A)
      → p ≤ length xs
      → get_elem? (take p xs ++ z ∷ drop p xs) j
        ≡ (if ltb j p then get_elem? xs j else if j == p then some z else get_elem? xs (j - 1))
  get_elem?-insert_at xs zero zero z h = refl
  get_elem?-insert_at xs zero (suc j) z h = ground arith
  get_elem?-insert_at [] (suc p) j z h = absurd (omega arith)
  get_elem?-insert_at (x ∷ xs) (suc p) zero z h = ground arith
  get_elem?-insert_at (x ∷ xs) (suc p) (suc zero) z h =
      ground (arith, get_elem?-insert_at xs p zero z)
  get_elem?-insert_at (x ∷ xs) (suc p) (suc (suc j)) z h =
      ground (arith, get_elem?-insert_at xs p (suc j) z)

  pub get_elem?-remove_at :
      (xs : List A) (p j : ℕ)
      → get_elem? (take p xs ++ drop (suc p) xs) j
        ≡ (if ltb j p then get_elem? xs j else get_elem? xs (suc j))
  get_elem?-remove_at [] zero j = ground arith
  get_elem?-remove_at [] (suc p) j = ground arith
  get_elem?-remove_at (x ∷ xs) zero j = ground arith
  get_elem?-remove_at (x ∷ xs) (suc p) zero = ground arith
  get_elem?-remove_at (x ∷ xs) (suc p) (suc j) = ground (arith, get_elem?-remove_at xs p j)
