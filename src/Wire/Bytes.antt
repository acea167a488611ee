-- ===== src/Wire/Bytes.antt =====
-- The big-endian words of the datagrams (`read_u32_be`, `read_u64_be` of g1_udp_bridge.cpp against
-- `append_u32_be`, `append_u64_be` of both programs): reading a written word gives it back.
use grit_deploy_onboard_g.Prelude.{
  ℕ, ◌+◌, ◌*◌, ◌/◌, ◌^◌, ◌<◌, ◌≤◌, ◌≡◌, refl, ap, arith, List, ok, slice, length, take, drop,
  le→leb,
}
use grit_deploy_onboard_g.Wire.{byte, u64_be, push_byte, push_bytes, read_u64_be}

pub sum-u32_be :
    (v : ℕ) → v < 2 ^ 32 → byte v 3 * 2 ^ 24 + byte v 2 * 2 ^ 16 + byte v 1 * 2 ^ 8 + byte v 0 ≡ v
sum-u32_be v h = omega arith

-- One round of the loop takes the next byte of a 64-bit word.
push_byte_7 : (v : ℕ) → v < 2 ^ 64 → push_byte 0 (byte v 7) ≡ v / 2 ^ 56
unfolding push_byte
push_byte_7 v h = omega arith

push_byte_6 : (v : ℕ) → v < 2 ^ 64 → push_byte (v / 2 ^ 56) (byte v 6) ≡ v / 2 ^ 48
unfolding push_byte
push_byte_6 v h = omega arith

push_byte_5 : (v : ℕ) → v < 2 ^ 64 → push_byte (v / 2 ^ 48) (byte v 5) ≡ v / 2 ^ 40
unfolding push_byte
push_byte_5 v h = omega arith

push_byte_4 : (v : ℕ) → v < 2 ^ 64 → push_byte (v / 2 ^ 40) (byte v 4) ≡ v / 2 ^ 32
unfolding push_byte
push_byte_4 v h = omega arith

push_byte_3 : (v : ℕ) → v < 2 ^ 64 → push_byte (v / 2 ^ 32) (byte v 3) ≡ v / 2 ^ 24
unfolding push_byte
push_byte_3 v h = omega arith

push_byte_2 : (v : ℕ) → v < 2 ^ 64 → push_byte (v / 2 ^ 24) (byte v 2) ≡ v / 2 ^ 16
unfolding push_byte
push_byte_2 v h = omega arith

push_byte_1 : (v : ℕ) → v < 2 ^ 64 → push_byte (v / 2 ^ 16) (byte v 1) ≡ v / 2 ^ 8
unfolding push_byte
push_byte_1 v h = omega arith

push_byte_0 : (v : ℕ) → v < 2 ^ 64 → push_byte (v / 2 ^ 8) (byte v 0) ≡ v
unfolding push_byte
push_byte_0 v h = omega arith

pub push_bytes-u64_be : (v : ℕ) → v < 2 ^ 64 → push_bytes 0 (u64_be v) ≡ v
unfolding push_bytes
push_bytes-u64_be v h =
    rw
      (
        push_byte_7 v h,
        push_byte_6 v h,
        push_byte_5 v h,
        push_byte_4 v h,
        push_byte_3 v h,
        push_byte_2 v h,
        push_byte_1 v h,
        push_byte_0 v h,
      )
      refl

pub slice-eq {ℓ} :
    {A : Type ℓ} (xs : List A) (i n : ℕ)
    → i + n ≤ length xs
    → slice xs i n ≡ ok (take n (drop i xs))
unfolding slice
slice-eq xs i n h = rw (le→leb _ _ h) refl

-- Eight bytes of a buffer that are a written word are read as that word.
pub read_u64_be-eq :
    (xs : List ℕ) (i v : ℕ)
    → v < 2 ^ 64
    → i + 8 ≤ length xs
    → take 8 (drop i xs) ≡ u64_be v
    → read_u64_be xs i ≡ ok v
unfolding read_u64_be
read_u64_be-eq xs i v hv h e = rw (slice-eq xs i 8 h, e) (ap ok (push_bytes-u64_be v hv))
