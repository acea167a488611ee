-- ===== src/Wire.antt =====
-- The datagrams between the bridge and the policy: g1_sim2real/src/g1_udp_bridge.cpp
-- (`encode_datagram`, `decode_datagram`) and g1_sim2real/src/g1_npz_policy.cpp (`encode_packet`,
-- `RobotTransport::receive`). A byte is a number below 256. zlib's `crc32` and yaml-cpp's
-- `YAML::Load` are parameters.
pub mod Bytes
pub mod RoundTrip
pub mod Checks
use grit_deploy_onboard_g.Prelude.{
  ℕ, ◌+◌, ◌*◌, ◌/◌, ◌%◌, ◌^◌, ◌-◌, Bool, true, false, not, ◌&&◌, ◌||◌, List, [], ◌∷◌, ◌++◌, ltb,
  leb, ◌==◌, if◌then◌else◌, Result, ok, require, ◌>>=◌, ◌>>◌, at, slice, length, take, drop,
}

abbrev pub header_size : ℕ
header_size = 32

abbrev pub crc_size : ℕ
crc_size = 4

abbrev pub version : ℕ
version = 1

-- "ULDP".
abbrev pub magic : List ℕ
magic = 85 ∷ 76 ∷ 68 ∷ 80 ∷ []

-- Byte `k` of a word, counted from the low end: `(value >> 8 * k) & 0xff`.
abbrev pub byte : ℕ → ℕ → ℕ
byte value k = value / 2 ^ (8 * k) % 256

abbrev pub u16_be : ℕ → List ℕ
u16_be v = byte v 1 ∷ byte v 0 ∷ []

abbrev pub u32_be : ℕ → List ℕ
u32_be v = byte v 3 ∷ byte v 2 ∷ byte v 1 ∷ byte v 0 ∷ []

abbrev pub u64_be : ℕ → List ℕ
u64_be v =
    byte v 7 ∷ byte v 6 ∷ byte v 5 ∷ byte v 4 ∷ byte v 3 ∷ byte v 2 ∷ byte v 1 ∷ byte v 0 ∷ []

unfoldable pub append_u16_be : List ℕ → ℕ → List ℕ
append_u16_be out value = out ++ u16_be value

unfoldable pub append_u32_be : List ℕ → ℕ → List ℕ
append_u32_be out value = out ++ u32_be value

unfoldable pub append_u64_be : List ℕ → ℕ → List ℕ
append_u64_be out value = out ++ u64_be value

-- The bits of the shifted bytes are disjoint, so `|` is a sum.
unfoldable pub read_u32_be : List ℕ → ℕ → Result ℕ
read_u32_be p i = do
  b0 ← at p i
  b1 ← at p (i + 1)
  b2 ← at p (i + 2)
  b3 ← at p (i + 3)
  ok (b0 * 2 ^ 24 + b1 * 2 ^ 16 + b2 * 2 ^ 8 + b3)

-- `value = (value << 8) | p[i]` on a `uint64_t`.
unfoldable pub push_byte : ℕ → ℕ → ℕ
push_byte value b = value * 256 % 2 ^ 64 + b

unfoldable pub push_bytes : ℕ → List ℕ → ℕ
push_bytes value [] = value
push_bytes value (b ∷ bs) = push_bytes (push_byte value b) bs

unfoldable pub read_u64_be : List ℕ → ℕ → Result ℕ
read_u64_be p i = do bytes ← slice p i 8; ok (push_bytes 0 bytes)

unfoldable pub list_eq : List ℕ → List ℕ → Bool
list_eq [] [] = true
list_eq [] (y ∷ ys) = false
list_eq (x ∷ xs) [] = false
list_eq (x ∷ xs) (y ∷ ys) = (x == y) && list_eq xs ys

-- The 32 bytes in front of the checksum.
unfoldable pub header : ℕ → ℕ → ℕ → ℕ → List ℕ
header seq now meta_size payload_size =
    append_u32_be
      (append_u32_be
        (append_u64_be (append_u64_be (append_u16_be (magic ++ (version ∷ 0 ∷ [])) 0) seq) now)
        (meta_size % 2 ^ 32))
      (payload_size % 2 ^ 32)

pub record LatestPacket {ℓ} (N : Type ℓ) : Type ℓ where
  pub seq : ℕ
  pub send_time_ns : ℕ
  pub recv_time_ns : ℕ
  pub root : N
  pub payload : List ℕ

-- `crc32(crc, buf, len)` of zlib takes the first `len` bytes, `len` being a 32-bit number.
module _ (crc32 : ℕ → List ℕ → ℕ) where
  abbrev pub crc32_of : ℕ → List ℕ → ℕ → ℕ
  crc32_of crc buf len = crc32 crc (take (len % 2 ^ 32) buf)

  -- The checksum of the header, the text and the payload in turn.
  unfoldable pub packet_crc : List ℕ → List ℕ → List ℕ → ℕ
  packet_crc head meta payload =
      crc32_of (crc32_of (crc32_of 0 head (length head)) meta (length meta)) payload
        (length payload)

  -- `encode_packet` of the policy: the header, the checksum, the text and the payload.
  unfoldable pub encode_packet : List ℕ → List ℕ → ℕ → ℕ → List ℕ
  encode_packet meta payload seq now =
      let head = header seq now (length meta) (length payload) in
      append_u32_be head (packet_crc head meta payload % 2 ^ 32) ++ (meta ++ payload)

  -- `encode_datagram` of the bridge leaves out the checksum round of an empty payload.
  unfoldable pub encode_datagram : List ℕ → List ℕ → ℕ → ℕ → Result (List ℕ)
  encode_datagram meta payload seq now = do
    require (not (ltb (2 ^ 32 - 1) (length meta) || ltb (2 ^ 32 - 1) (length payload)))
        "UDP payload too large"
    let head = header seq now (length meta) (length payload)
    let text_crc = crc32_of (crc32_of 0 head (length head)) meta (length meta)
    let crc = if length payload == 0 then text_crc else crc32_of text_crc payload (length payload)
    ok (append_u32_be head (crc % 2 ^ 32) ++ (meta ++ payload))

  module _ {ℓ} {N : Type ℓ} (yaml_load : List ℕ → Result N) where
    -- `decode_datagram` of the bridge; `recv_time_ns` is filled in by its caller.
    unfoldable pub decode_datagram : List ℕ → Result (LatestPacket N)
    decode_datagram packet = do
      require (not (ltb (length packet) (header_size + crc_size))) "packet too short"
      require (list_eq magic (take 4 packet)) "bad magic"
      packet_version ← at packet 4
      require (packet_version == version) "unsupported version"
      seq ← read_u64_be packet 8
      send_time_ns ← read_u64_be packet 16
      meta_len ← read_u32_be packet 24
      payload_len ← read_u32_be packet 28
      require (length packet == (header_size + crc_size + meta_len + payload_len))
          "packet length mismatch"
      recv_crc ← read_u32_be packet header_size
      head ← slice packet 0 header_size
      body ← slice packet (header_size + crc_size) ((meta_len + payload_len) % 2 ^ 32)
      require (crc32 (crc32 0 head) body % 2 ^ 32 == recv_crc) "crc mismatch"
      meta ← slice packet (header_size + crc_size) meta_len
      payload ← slice packet (header_size + crc_size + meta_len) payload_len
      root ← yaml_load meta
      ok (record {
        seq = seq;
        send_time_ns = send_time_ns;
        recv_time_ns = 0;
        root = root;
        payload = payload;
      })
