-- ===== src/Variant.antt =====
-- src/variant.c and src/variant-benc.c: `tr_variant`, a tree of numbers, strings, lists and
-- dictionaries, and its bencoded form. A string is its bytes. A key is the text of its quark, so the
-- quark 0 is the empty key. A real number is the text that `%f` prints of it.
pub mod Walk
pub mod Benc
pub mod Dict
use libtransmission.Prelude.{ℕ, Bool, true, false, List}

-- `negsuc n` is -(n + 1).
pub data ℤ : Type 0 where
  pos : ℕ → ℤ
  negsuc : ℕ → ℤ

mutual
  pub data Variant : Type 0 where
    int : ℤ → Variant
    bool : Bool → Variant
    real : List ℕ → Variant
    str : List ℕ → Variant
    items : Items → Variant
    dict : Entries → Variant

  pub data Items : Type 0 where
    nil : Items
    cons : Variant → Items → Items

  pub data Entries : Type 0 where
    end : Entries
    entry : List ℕ → Variant → Entries → Entries

-- `tr_variantListAdd` and the value put there.
pub list_add : Items → Variant → Items
list_add nil v = cons v nil
list_add (cons x xs) v = cons x (list_add xs v)

-- `tr_variantDictAdd` and the value put there.
pub dict_add : Entries → List ℕ → Variant → Entries
dict_add end k v = entry k v end
dict_add (entry j x es) k v = entry j x (dict_add es k v)

unfoldable pub is_container : Variant → Bool
is_container (items xs) = true
is_container (dict es) = true
is_container _ = false
