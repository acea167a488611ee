-- ===== src/Npz.antt =====
-- Numeric arrays of an NPZ file: `NpyArray` of g1_sim2real/src/npz_reader.cpp. A byte is a number
-- below 256, and text is the list of its bytes. Messages leave out the names of files and members.
pub mod Header
pub mod Archive
pub mod Motions
pub mod Sizes
pub mod Reading
pub mod Shapes
pub mod Loaded
use grit_deploy_onboard_g.Prelude.{
  ℕ, ◌+◌, ◌*◌, ◌-◌, ◌/◌, ◌%◌, ◌^◌, Bool, not, ◌&&◌, ◌||◌, List, [], ◌∷◌, length, ltb, ◌==◌,
  if◌then◌else◌, Result, ok, ◌>>=◌, ◌>>◌, require, throw, at,
}
use grit_deploy_onboard_g.Wire.{list_eq}
use grit_deploy_onboard_g.Bridge.Arrays.{read_elements}

abbrev pub Text : Type 0
Text = List ℕ

pub record NpyArray : Type 0 where
  pub dtype : Text
  pub shape : List ℕ
  pub bytes : List ℕ
  pub fortran_order : Bool

unfoldable pub read_u16_le : List ℕ → ℕ → Result ℕ
read_u16_le p i = do b0 ← at p i; b1 ← at p (i + 1); ok (b0 + b1 * 2 ^ 8)

unfoldable pub read_u32_le : List ℕ → ℕ → Result ℕ
read_u32_le p i = do
  b0 ← at p i
  b1 ← at p (i + 1)
  b2 ← at p (i + 2)
  b3 ← at p (i + 3)
  ok (b0 + b1 * 2 ^ 8 + b2 * 2 ^ 16 + b3 * 2 ^ 24)

unfoldable pub require_range : ℕ → ℕ → ℕ → Result (Unit {0})
require_range offset size total =
    require (not (ltb total offset || ltb (total - offset) size)) "NPZ range error"

-- The product of the dimensions, on a `size_t` that is checked before it is multiplied.
unfoldable pub count_from : ℕ → List ℕ → Result ℕ
count_from count [] = ok count
count_from count (dim ∷ dims) = do
  require (not (not (dim == 0) && ltb ((2 ^ 64 - 1) / dim) count)) "NPY shape overflows size_t"
  count_from (count * dim % 2 ^ 64) dims

unfoldable pub element_count : NpyArray → Result ℕ
element_count array = count_from 1 array.shape

-- "<f4", "=f4" or "|f4", and the same with "f8".
abbrev pub is_float32 : Text → Bool
is_float32 t =
    list_eq t (60 ∷ 102 ∷ 52 ∷ [])
    || (list_eq t (61 ∷ 102 ∷ 52 ∷ []) || list_eq t (124 ∷ 102 ∷ 52 ∷ []))

abbrev pub is_float64 : Text → Bool
is_float64 t =
    list_eq t (60 ∷ 102 ∷ 56 ∷ [])
    || (list_eq t (61 ∷ 102 ∷ 56 ∷ []) || list_eq t (124 ∷ 102 ∷ 56 ∷ []))

-- `std::vector<float>::max_size()`.
abbrev pub max_floats : ℕ
max_floats = 2 ^ 61 - 1

-- `of_f4` reads a `float` from its bytes, and `of_f8` a `double`, rounded to a `float`.
module _ {ℓ} {F : Type ℓ} (of_f4 of_f8 : List ℕ → F) where
  unfoldable pub as_float32 : List ℕ → ℕ → Result (List F)
  as_float32 bytes count = do
    require (length bytes == (count * 4 % 2 ^ 64)) "NPY float32 byte count does not match shape"
    read_elements of_f4 4 bytes 0 count

  unfoldable pub as_float64 : List ℕ → ℕ → Result (List F)
  as_float64 bytes count = do
    require (length bytes == (count * 8 % 2 ^ 64)) "NPY float64 byte count does not match shape"
    read_elements of_f8 8 bytes 0 count

  unfoldable pub as_float : NpyArray → Result (List F)
  as_float array = do
    require (not array.fortran_order) "Fortran-order NPY numeric arrays are not supported"
    count ← element_count array
    require (not (ltb max_floats count)) "cannot create std::vector larger than max_size()"
    let other = throw "Unsupported NPY dtype"
    if is_float32 array.dtype
        then as_float32 array.bytes count
        else if is_float64 array.dtype
        then as_float64 array.bytes count
        else other
