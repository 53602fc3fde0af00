-- ===== src/Metainfo/Components.antt =====
-- The components of a path.
use libtransmission.Prelude.{
  ℕ, ◌≡◌, refl, ap, sym, arith, Bool, true, false, not, ◌&&◌, List, [], ◌∷◌, ◌++◌, if◌then◌else◌,
  ◌==◌, Bool-cases, inl, inr,
}
use libtransmission.Variant.Dict.{same_key}
use libtransmission.Metainfo.{c_string, has_char, is_empty_text, path_component_is_suspicious}

-- The components of a path: the first, and those that follow.
pub components : List ℕ → List ℕ × List (List ℕ)
components [] = ([], [])
components (x ∷ xs) = let (p, ps) = components xs in if x == b'/' then ([], p ∷ ps) else (x ∷ p, ps)

-- A component that names an entry of the directory that it is looked up in.
abbrev pub is_plain : List ℕ → Bool
is_plain p =
    not (is_empty_text p) && (not (same_key p (b'.' ∷ [])) && not (same_key p (b'.' ∷ b'.' ∷ [])))

pub all_plain : List (List ℕ) → Bool
all_plain [] = true
all_plain (p ∷ ps) = is_plain p && all_plain ps

all_plain-append : (ps qs : List (List ℕ)) → all_plain (ps ++ qs) ≡ (all_plain ps && all_plain qs)
unfolding all_plain
all_plain-append [] qs = refl
all_plain-append (p ∷ ps) qs = ground (arith, all_plain-append ps qs)

-- A path all of whose components are plain.
pub is_plain_path : List ℕ → Bool
is_plain_path text = is_plain (components text).0 && all_plain (components text).1

components-append :
    (a b : List ℕ)
    → components (a ++ b'/' ∷ b)
      ≡ ((components a).0, (components a).1 ++ (components b).0 ∷ (components b).1)
unfolding components
components-append [] b = refl
components-append (x ∷ a) b = elim (Bool-cases (x == b'/')) [
  | inl e ↦ rw (components-append a b) (rw e refl)
  | inr e ↦ rw (components-append a b) (rw e refl)
]

components_single : (s : List ℕ) → has_char b'/' s ≡ false → components s ≡ (s, [])
unfolding components has_char
components_single [] h = refl
components_single (x ∷ s) h =
    let here : (x == b'/') ≡ false = ground (arith, h) in
    let later : has_char b'/' s ≡ false = ground (arith, h) in
    rw (components_single s later) (rw here refl)

c_string-append_zero : (a b : List ℕ) → has_char 0 a ≡ true → c_string (a ++ b) ≡ c_string a
unfolding c_string has_char
c_string-append_zero [] b h = ground (arith, h)
c_string-append_zero (x ∷ a) b h = elim (Bool-cases (x == 0)) [
  | inl e ↦ rw e refl
  | inr e ↦ rw e (ap (λ t. x ∷ t) (c_string-append_zero a b (ground (arith, h, e))))
]

c_string-append : (a b : List ℕ) → has_char 0 a ≡ false → c_string (a ++ b) ≡ a ++ c_string b
unfolding c_string has_char
c_string-append [] b h = refl
c_string-append (x ∷ a) b h =
    let here : (x == 0) ≡ false = ground (arith, h) in
    rw here (ap (λ t. x ∷ t) (c_string-append a b (ground (arith, h))))

pub c_string_self : (a : List ℕ) → has_char 0 a ≡ false → c_string a ≡ a
unfolding c_string has_char
c_string_self [] h = refl
c_string_self (x ∷ a) h =
    let here : (x == 0) ≡ false = ground (arith, h) in
    rw here (ap (λ t. x ∷ t) (c_string_self a (ground (arith, h))))

-- A component that is not suspicious is plain, and is one component.
pub plain_alone :
    (s : List ℕ)
    → path_component_is_suspicious s ≡ false
    → (is_plain s ≡ true) × (components s ≡ (s, []))
unfolding path_component_is_suspicious
plain_alone s h = (ground (arith, h), components_single s (ground (arith, h)))

-- A plain path stays plain when a component that is not suspicious is added.
pub plain_grows :
    (a s : List ℕ)
    → is_plain_path (c_string a) ≡ true
    → path_component_is_suspicious (c_string s) ≡ false
    → is_plain_path (c_string (a ++ b'/' ∷ s)) ≡ true
unfolding is_plain_path all_plain components c_string
plain_grows a s plain fine = elim (Bool-cases (has_char 0 a)) [
  | inl zero_in ↦ rw (c_string-append_zero a (b'/' ∷ s) zero_in) plain
  | inr e ↦
      let (alone, single) = plain_alone (c_string s) fine in
      let whole : components (c_string (a ++ b'/' ∷ s))
          ≡ ((components a).0, (components a).1 ++ c_string s ∷ []) =
        rw (c_string-append a (b'/' ∷ s) e)
          (rw (components-append a (c_string s)) (rw single refl)) in
      let plain' : is_plain_path a ≡ true = rw (sym (c_string_self a e)) plain in
      rw whole (ground (arith, plain', alone, all_plain-append (components a).1 (c_string s ∷ [])))
]

pub name_plain :
    (name : List ℕ)
    → has_char 0 name ≡ false
    → path_component_is_suspicious name ≡ false
    → is_plain_path (c_string name) ≡ true
unfolding is_plain_path all_plain
name_plain name is_text fine =
    let (plain, single) = plain_alone name fine in
    rw (c_string_self name is_text) (rw single (ground (arith, plain)))
