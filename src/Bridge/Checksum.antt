-- ===== src/Bridge/Checksum.antt =====
-- The robot's own checksum: g1_sim2real/src/g1_udp_bridge.cpp, `crc32_core`, on `uint32_t` words.
use Prim.Native.Nat.{bit_xor}
use grit_deploy_onboard_g.Prelude.{
  ℕ, zero, suc, ◌-◌, ◌*◌, ◌/◌, ◌%◌, ◌^◌, Bool, List, [], ◌∷◌, leb, ◌==◌, if◌then◌else◌,
}

-- 0x04c11db7.
abbrev pub polynomial : ℕ
polynomial = 79764919

-- One round of the loop over the bits; `bit` is `data & xbit`.
unfoldable pub crc_bit : ℕ → Bool → ℕ
crc_bit crc bit =
    let shifted = crc * 2 % 2 ^ 32 in
    let divided = if leb (2 ^ 31) crc then bit_xor shifted polynomial else shifted in
    if bit then bit_xor divided polynomial else divided

-- The `k` lowest bits of a word, from the top one down.
unfoldable pub crc_bits : ℕ → ℕ → ℕ → ℕ
crc_bits crc word zero = crc
crc_bits crc word (suc k) = crc_bits (crc_bit crc (word / 2 ^ k % 2 == 1)) word k

unfoldable pub crc_words : ℕ → List ℕ → ℕ
crc_words crc [] = crc
crc_words crc (word ∷ words) = crc_words (crc_bits crc word 32) words

unfoldable pub crc32_core : List ℕ → ℕ
crc32_core words = crc_words (2 ^ 32 - 1) words
