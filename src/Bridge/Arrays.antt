-- ===== src/Bridge/Arrays.antt =====
-- Arrays in a datagram: g1_sim2real/src/g1_udp_bridge.cpp, `read_array_as_double`.
pub mod Bounds
use Prim.Native.String.{String, ◌++◌}
use grit_deploy_onboard_g.Prelude.{
  ℕ, zero, suc, ◌+◌, ◌-◌, ◌*◌, ◌/◌, ◌%◌, ◌^◌, Bool, true, false, not, ◌||◌, ◌&&◌, List, [], ◌∷◌,
  length, ltb, leb, ◌==◌, if◌then◌else◌, Result, ok, require, throw, ◌>>=◌, ◌>>◌, slice, map_m,
}
use grit_deploy_onboard_g.Yaml.{Yaml, same_text}
use grit_deploy_onboard_g.Segment.{below}

-- One round of the product of the dimensions on a `size_t`, checked before it multiplies.
unfoldable pub count_dim : String → ℕ → ℕ → Result ℕ
count_dim key count dim_count = do
  require (not (not (dim_count == 0) && ltb ((2 ^ 64 - 1) / dim_count) count))
      ("ndarray shape overflows size_t for key: " ++ key)
  ok (count * dim_count % 2 ^ 64)

-- `std::vector<double>::max_size()`.
abbrev pub max_doubles : ℕ
max_doubles = 2 ^ 60 - 1

abbrev pub is_f4 : String → Bool
is_f4 t = same_text t "<f4" || (same_text t "=f4" || same_text t "|f4")

abbrev pub is_f8 : String → Bool
is_f8 t = same_text t "<f8" || (same_text t "=f8" || same_text t "|f8")

-- The loop of `memcpy` calls over elements of `size` bytes.
unfoldable pub read_elements {κ} :
    {F : Type κ} → (List ℕ → F) → ℕ → List ℕ → ℕ → ℕ → Result (List F)
read_elements of_bytes size payload offset count =
    map_m (λ i. do bytes ← slice payload (offset + i * size) size; ok (of_bytes bytes))
      (below count)

-- `of_f4` and `of_f8` read a `float` and a `double` from their bytes.
unfoldable pub read_values {κ} :
    {F : Type κ}
    → (List ℕ → F)
    → (List ℕ → F)
    → String
    → String
    → ℕ
    → ℕ
    → ℕ
    → List ℕ
    → Result (List F)
read_values of_f4 of_f8 key dtype count offset nbytes payload = do
  require (not (ltb max_doubles count)) "cannot create std::vector larger than max_size()"
  let f4 = do
    require (nbytes == (count * 4 % 2 ^ 64)) ("Unexpected float32 nbytes for key: " ++ key)
    read_elements of_f4 4 payload offset count
  let f8 = do
    require (nbytes == (count * 8 % 2 ^ 64)) ("Unexpected float64 nbytes for key: " ++ key)
    read_elements of_f8 8 payload offset count
  let other = throw ("Unsupported ndarray dtype for key " ++ (key ++ (": " ++ dtype)))
  if is_f4 dtype then f4 else if is_f8 dtype then f8 else other

module _ {ℓ} {N : Type ℓ} ⦃yaml : Yaml N⦄ where
  -- `for (const auto & dim : shape)`: each dimension is converted, then multiplied.
  unfoldable pub count_shape : String → ℕ → List N → Result ℕ
  count_shape key count [] = ok count
  count_shape key count (dim ∷ dims) = do
    dim_count ← yaml.as_size dim
    next ← count_dim key count dim_count
    count_shape key next dims

  unfoldable pub read_array_as_double {κ} :
      {F : Type κ} → (List ℕ → F) → (List ℕ → F) → N → List ℕ → String → Result (List F)
  read_array_as_double of_f4 of_f8 root payload key = do
    let meta = yaml.get root key
    let type_node = yaml.get meta "__udp_latest_type__"
    require (yaml.is_defined meta && (yaml.is_map meta && yaml.is_defined type_node))
        ("Expected ndarray for key: " ++ key)
    type_name ← yaml.as_string type_node
    require (same_text type_name "ndarray") ("Expected ndarray for key: " ++ key)
    dtype ← yaml.as_string (yaml.get meta "dtype")
    offset ← yaml.as_size (yaml.get meta "offset")
    nbytes ← yaml.as_size (yaml.get meta "nbytes")
    let shape = yaml.get meta "shape"
    require (yaml.is_defined shape && yaml.is_sequence shape)
        ("Missing ndarray shape for key: " ++ key)
    count ← count_shape key 1 (yaml.items shape)
    require (not (ltb (length payload) offset || ltb (length payload - offset) nbytes))
        ("ndarray payload out of range: " ++ key)
    read_values of_f4 of_f8 key dtype count offset nbytes payload
