-- ===== src/Base/Dynamic.antt =====
-- folly::dynamic: a JSON value. A double is kept by its text.
use text.Mathlib.Text.{◌==◌ as str_eq}
use text.Mathlib.TextEquality.{eq_iff}
use bistro.Base.{String, Bool, true, false, Option, none, some, ◌≡◌, refl, arith, if◌then◌else◌}
use bistro.Base.Int.{ℤ}

mutual
  pub data Dynamic : Type 0 where
    null : Dynamic
    bool : Bool → Dynamic
    int : ℤ → Dynamic
    double : String → Dynamic
    string : String → Dynamic
    array : Items → Dynamic
    object : Fields → Dynamic

  pub data Items : Type 0 where
    nil : Items
    item : Dynamic → Items → Items

  pub data Fields : Type 0 where
    end : Fields
    field : String → Dynamic → Fields → Fields

-- The object's get_ptr: a null pointer if the key is missing.
unfoldable pub get_ptr : String → Fields → Option Dynamic
get_ptr k end = none
get_ptr k (field j v fs) = if str_eq j k then some v else get_ptr k fs

unfoldable pub erase_key : String → Fields → Fields
erase_key k end = end
erase_key k (field j v fs) = if str_eq j k then erase_key k fs else field j v (erase_key k fs)

-- d[k] = v
unfoldable pub set_key : String → Dynamic → Fields → Fields
set_key k v end = field k v end
set_key k v (field j w fs) = if str_eq j k then field k v fs else field j w (set_key k v fs)

abbrev pub is_empty : Fields → Bool
is_empty end = true
is_empty (field _ _ _) = false

-- What throws a TypeError on a value of another type.
abbrev pub as_object : Dynamic → Option Fields
as_object (object fs) = some fs
as_object _ = none

abbrev pub get_int : Dynamic → Option ℤ
get_int (int z) = some z
get_int _ = none

pub get_ptr-set_key :
    (k j : String) (v : Dynamic) (fs : Fields)
    → get_ptr j (set_key k v fs) ≡ (if str_eq k j then some v else get_ptr j fs)
unfolding get_ptr set_key
get_ptr-set_key k j v end = refl
get_ptr-set_key k j v (field i w fs) =
    ground (arith, eq_iff k j, eq_iff i k, eq_iff i j, get_ptr-set_key k j v fs)

pub get_ptr-erase_key :
    (k j : String) (fs : Fields)
    → get_ptr j (erase_key k fs) ≡ (if str_eq k j then none else get_ptr j fs)
unfolding get_ptr erase_key
get_ptr-erase_key k j end = ground arith
get_ptr-erase_key k j (field i w fs) =
    ground (arith, eq_iff k j, eq_iff i k, eq_iff i j, get_ptr-erase_key k j fs)
