-- ===== src/Transport/Packet.antt =====
-- A datagram of the bridge as the policy opens it: g1_sim2real/src/g1_npz_policy.cpp, `read_array` and
-- the checks of `RobotTransport::receive`.
use Prim.Native.String.{String, ◌++◌}
use grit_deploy_onboard_g.Prelude.{
  ℕ, ◌+◌, ◌-◌, ◌*◌, ◌%◌, ◌^◌, Bool, false, not, ◌&&◌, ◌||◌, List, length, take, ltb, ◌==◌,
  if◌then◌else◌, Result, ok, ◌>>=◌, ◌>>◌, slice, require,
}
use grit_deploy_onboard_g.Floats.{Floats, float}
use grit_deploy_onboard_g.Yaml.{Yaml, YamlFloats, same_text}
use grit_deploy_onboard_g.Wire.{header_size, crc_size, magic, list_eq, read_u32_be, read_u64_be}
use grit_deploy_onboard_g.Bridge.Arrays.{read_elements}

-- What a packet that passes the checks holds.
pub record StatePacket {ℓ} (N : Type ℓ) : Type ℓ where
  pub seq : ℕ
  pub meta : N
  pub payload : List ℕ

module _ {κ} {N : Type κ} ⦃yaml : Yaml N⦄ where
  -- `meta[key].as<std::string>("")`.
  unfoldable pub text_of : N → String → Result String
  text_of meta key = do node ← yaml.child meta key; ok (yaml.string_or node "")

  -- An undefined node has no type.
  unfoldable pub type_of : N → Result String
  type_of meta = if yaml.is_defined meta then text_of meta "__udp_latest_type__" else ok ""

  unfoldable pub is_f4_text : N → Result Bool
  is_f4_text meta = do dtype ← text_of meta "dtype"; ok (same_text dtype "<f4")

  unfoldable pub is_float_array : N → Result Bool
  is_float_array meta = do
    type_name ← type_of meta
    if same_text type_name "ndarray" then is_f4_text meta else ok false

  unfoldable pub read_array {ℓ} :
      {F : Type ℓ} → (List ℕ → F) → N → List ℕ → String → ℕ → Result (List F)
  read_array of_f4 root payload key expected = do
    meta ← yaml.child root key
    is_array ← is_float_array meta
    require is_array ("State field is not float32 ndarray: " ++ key)
    offset_node ← yaml.child meta "offset"
    offset ← yaml.as_size offset_node
    bytes_node ← yaml.child meta "nbytes"
    bytes ← yaml.as_size bytes_node
    require
        (not (
          not (bytes == expected * 4)
          || (ltb (length payload) offset || ltb (length payload - offset) bytes)))
        ("State field has invalid size: " ++ key)
    read_elements of_f4 4 payload offset expected

  -- `meta["buttons"][key].as<bool>(false)` and `meta["sticks"][key].as<float>(0.0f)`.
  unfoldable pub read_button : N → String → Result Bool
  read_button meta key = do
    buttons ← yaml.child meta "buttons"
    button ← yaml.child buttons key
    ok (yaml.bool_or button false)

  unfoldable pub read_stick {ℓ} :
      {F : Type ℓ} ⦃fl : Floats F⦄ ⦃floats : YamlFloats N F⦄ → N → String → Result F
  read_stick ⦃floats = floats⦄ meta key = do
    sticks ← yaml.child meta "sticks"
    stick ← yaml.child sticks key
    ok (floats.float_or stick (float 0))

-- `YAML::Load` and zlib's `crc32` are parameters.
module _ {κ} {N : Type κ} (crc32 : ℕ → List ℕ → ℕ) (yaml_load : List ℕ → Result N) where
  unfoldable pub open_packet : List ℕ → Result (StatePacket N)
  open_packet packet = do
    require (not (ltb (length packet) (header_size + crc_size)) && list_eq magic (take 4 packet))
        "Invalid state UDP packet"
    meta_size ← read_u32_be packet 24
    payload_size ← read_u32_be packet 28
    require (length packet == (header_size + crc_size + meta_size + payload_size))
        "State UDP packet length mismatch"
    received_crc ← read_u32_be packet header_size
    head ← slice packet 0 header_size
    body ← slice packet (header_size + crc_size) ((meta_size + payload_size) % 2 ^ 32)
    require (crc32 (crc32 0 head) body % 2 ^ 32 == received_crc) "State UDP CRC mismatch"
    text ← slice packet (header_size + crc_size) meta_size
    meta ← yaml_load text
    payload ← slice packet (header_size + crc_size + meta_size) payload_size
    seq ← read_u64_be packet 8
    ok (record { seq = seq; meta = meta; payload = payload })
