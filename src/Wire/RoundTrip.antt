-- ===== src/Wire/RoundTrip.antt =====
-- What one program encodes, the other decodes: `encode_datagram` and `decode_datagram` of
-- g1_udp_bridge.cpp, `encode_packet` of g1_npz_policy.cpp.
use grit_deploy_onboard_g.Prelude.{
  ℕ, suc, ◌+◌, ◌%◌, ◌^◌, ◌<◌, ◌≡◌, refl, ap, sym, ◌∙◌, arith, Bool, true, false, List, [], ◌∷◌,
  ◌++◌, Result, ok, ◌>>=◌, require, length, take, drop, length-append, take_all, take-append,
  drop-append, drop_add, ◌==◌, ==_refl, at, if◌then◌else◌,
}
use Prim.Native.String.{String}
use grit_deploy_onboard_g.Wire.{
  u32_be, u64_be, header_size, crc_size, append_u16_be, append_u32_be, append_u64_be, header,
  packet_crc, encode_packet, encode_datagram, decode_datagram, read_u32_be, list_eq, crc32_of,
}
use grit_deploy_onboard_g.Wire.Bytes.{read_u64_be-eq, sum-u32_be, slice-eq}

-- Concatenation is associative, as the two loops over the text and the payload need it.
append_nil : (xs : List ℕ) → xs ++ [] ≡ xs
append_nil [] = refl
append_nil (x ∷ xs) = ap (λ r. x ∷ r) (append_nil xs)

bind-eq {ℓ κ} :
    {A : Type ℓ} {B : Type κ} {m : Result A} (f : A → Result B) {a : A} {r : Result B}
    → m ≡ ok a
    → f a ≡ r
    → (m >>= f) ≡ r
bind-eq f e h = ap (λ m. m >>= f) e ∙ h

require-eq : {b : Bool} (m : String) → b ≡ true → require b m ≡ ok tt
unfolding require
require-eq m e = rw e refl

small_mod : (m : ℕ) → m < 2 ^ 32 → m % 2 ^ 32 ≡ m
small_mod m h = omega arith

take_small : (xs : List ℕ) → length xs < 2 ^ 32 → take (length xs % 2 ^ 32) xs ≡ xs
take_small xs h = rw (small_mod _ h) (take_all xs)

-- The layout of a datagram: the fixed header, the checksum and the body.
abbrev frame_head : ℕ → ℕ → ℕ → ℕ → List ℕ → List ℕ
frame_head seq now m n rest =
    85
    ∷ 76
    ∷ 68
    ∷ 80
    ∷ 1
    ∷ 0
    ∷ 0
    ∷ 0
    ∷ (u64_be seq ++ (u64_be now ++ (u32_be m ++ (u32_be n ++ rest))))

header-eq :
    (seq now m n crc : ℕ) (body : List ℕ)
    → append_u32_be (header seq now m n) crc ++ body
      ≡ frame_head seq now (m % 2 ^ 32) (n % 2 ^ 32) (u32_be crc ++ body)
unfolding append_u16_be append_u32_be append_u64_be header
header-eq seq now m n crc body = refl

read_meta_len :
    (seq now m n : ℕ) (rest : List ℕ)
    → m < 2 ^ 32
    → read_u32_be (frame_head seq now m n rest) 24 ≡ ok m
unfolding read_u32_be at
read_meta_len seq now m n rest h = ap ok (sum-u32_be m h)

read_payload_len :
    (seq now m n : ℕ) (rest : List ℕ)
    → n < 2 ^ 32
    → read_u32_be (frame_head seq now m n rest) 28 ≡ ok n
unfolding read_u32_be at
read_payload_len seq now m n rest h = ap ok (sum-u32_be n h)

read_crc :
    (seq now m n crc : ℕ) (body : List ℕ)
    → crc < 2 ^ 32
    → read_u32_be (frame_head seq now m n (u32_be crc ++ body)) 32 ≡ ok crc
unfolding read_u32_be at
read_crc seq now m n crc body h = ap ok (sum-u32_be crc h)

header_nil :
    (seq now m n : ℕ) → header seq now m n ≡ frame_head seq now (m % 2 ^ 32) (n % 2 ^ 32) []
unfolding append_u16_be append_u32_be append_u64_be header
header_nil seq now m n = refl

take_body :
    (xs ys : List ℕ)
    → length xs + length ys < 2 ^ 32
    → take ((length xs + length ys) % 2 ^ 32) (xs ++ ys) ≡ xs ++ ys
take_body xs ys h = rw (small_mod _ h, sym (length-append xs ys)) (take_all (xs ++ ys))

drop_payload : (xs ys : List ℕ) → take (length ys) (drop (length xs) (xs ++ ys)) ≡ ys
drop_payload xs ys = rw (drop-append xs ys) (take_all ys)

suc_not_zero : (n : ℕ) → (suc n == 0) ≡ false
suc_not_zero n = ground arith

==_same : {a b : ℕ} → a ≡ b → (a == b) ≡ true
==_same {a} e = ap (λ b. a == b) (sym e) ∙ ==_refl a

module _ (crc32 : ℕ → List ℕ → ℕ) where
  module _ {ℓ} {N : Type ℓ} (yaml_load : List ℕ → Result N) where
    decode_datagram-frame_head :
        (seq now crc : ℕ) (meta payload : List ℕ) {root : N}
        → seq < 2 ^ 64
        → now < 2 ^ 64
        → crc < 2 ^ 32
        → length meta + length payload < 2 ^ 32
        → crc32 (crc32 0 (frame_head seq now (length meta) (length payload) [])) (meta ++ payload)
            % 2 ^ 32
          ≡ crc
        → yaml_load meta ≡ ok root
        → decode_datagram crc32 yaml_load
            (frame_head seq now (length meta) (length payload) (u32_be crc ++ (meta ++ payload)))
          ≡ ok (record {
            seq = seq;
            send_time_ns = now;
            recv_time_ns = 0;
            root = root;
            payload = payload;
          })
    unfolding decode_datagram at list_eq
    decode_datagram-frame_head seq now crc meta payload hs hn hc hl e y =
        let m = length meta in
        let n = length payload in
        let joined = length-append meta payload in
        let packet = frame_head seq now m n (u32_be crc ++ (meta ++ payload)) in
        let sized : length packet ≡ header_size + crc_size + m + n = omega (arith, joined) in
        bind-eq _ (require-eq _ (ground (arith, joined))) (
          bind-eq _ (require-eq _ refl) (
            bind-eq _ (require-eq _ refl) (
              bind-eq _ (read_u64_be-eq packet 8 seq hs (omega arith) refl) (
                bind-eq _ (read_u64_be-eq packet 16 now hn (omega arith) refl) (
                  bind-eq _ (read_meta_len seq now m n _ (omega arith)) (
                    bind-eq _ (read_payload_len seq now m n _ (omega arith)) (
                      bind-eq _ (require-eq _ (==_same sized)) (
                        bind-eq _ (read_crc seq now m n crc _ hc) (
                          bind-eq _ (slice-eq packet 0 32 (omega arith)) (
                            bind-eq _
                              (slice-eq packet 36 ((m + n) % 2 ^ 32) (omega (arith, joined))
                                ∙ ap ok (take_body meta payload hl))
                              (bind-eq _ (require-eq _ (==_same e)) (
                                bind-eq _
                                  (slice-eq packet 36 m (omega (arith, joined))
                                    ∙ ap ok (take-append meta payload))
                                  (bind-eq _
                                    (slice-eq packet (36 + m) n (omega (arith, joined))
                                      ∙ ap (λ r. ok (take n r)) (drop_add 36 m packet)
                                      ∙ ap ok (drop_payload meta payload))
                                    (bind-eq _ y refl))))))))))))))

  -- zlib: checksumming two pieces in turn is checksumming their concatenation.
  abbrev pub IsIncremental : Type 0
  IsIncremental = (c : ℕ) (xs ys : List ℕ) → crc32 (crc32 c xs) ys ≡ crc32 c (xs ++ ys)

  packet_crc-eq :
      (head meta payload : List ℕ)
      → length head < 2 ^ 32
      → length meta < 2 ^ 32
      → length payload < 2 ^ 32
      → IsIncremental
      → packet_crc crc32 head meta payload ≡ crc32 (crc32 0 head) (meta ++ payload)
  unfolding packet_crc
  packet_crc-eq head meta payload hh hm hp law =
      rw (take_small head hh, take_small meta hm, take_small payload hp)
        (law (crc32 0 head) meta payload)

  -- The round that the bridge leaves out would change nothing.
  skip_empty :
      (c : ℕ) (xs payload : List ℕ)
      → IsIncremental
      → (if length payload == 0
          then crc32 c xs
          else crc32_of crc32 (crc32 c xs) payload (length payload))
        ≡ crc32_of crc32 (crc32 c xs) payload (length payload)
  skip_empty c xs [] law = sym (law c xs [] ∙ ap (crc32 c) (append_nil xs))
  skip_empty c xs (b ∷ bs) law = rw (suc_not_zero (length bs)) refl

  -- Both programs write the same datagram for the same text, payload, sequence number and time: where
  -- both sizes are below 2^32, `encode_datagram` of the bridge returns what `encode_packet` of the
  -- policy gives, though it skips the checksum round of an empty payload.
  pub encode_datagram-encode_packet :
      (meta payload : List ℕ) (seq now : ℕ)
      → IsIncremental
      → length meta < 2 ^ 32
      → length payload < 2 ^ 32
      → encode_datagram crc32 meta payload seq now ≡ ok (encode_packet crc32 meta payload seq now)
  unfolding encode_datagram encode_packet packet_crc
  encode_datagram-encode_packet meta payload seq now law hm hp =
      let head = header seq now (length meta) (length payload) in
      bind-eq _ (require-eq _ (ground arith)) (
        ap (λ crc. ok (append_u32_be head (crc % 2 ^ 32) ++ (meta ++ payload)))
          (skip_empty _ _ payload law))

  module _ {ℓ} {N : Type ℓ} (yaml_load : List ℕ → Result N) where
    -- The bridge decodes every datagram that the policy encodes: with a sequence number and a time of
    -- 64 bits, a text and a payload below 2^32 bytes together, and a text that YAML accepts, it gets
    -- back the sequence number, the send time, the text's node and the payload.
    pub decode_datagram-encode_packet :
        (meta payload : List ℕ) (seq now : ℕ) {root : N}
        → IsIncremental
        → seq < 2 ^ 64
        → now < 2 ^ 64
        → length meta + length payload < 2 ^ 32
        → yaml_load meta ≡ ok root
        → decode_datagram crc32 yaml_load (encode_packet crc32 meta payload seq now)
          ≡ ok (record {
            seq = seq;
            send_time_ns = now;
            recv_time_ns = 0;
            root = root;
            payload = payload;
          })
    unfolding encode_packet
    decode_datagram-encode_packet meta payload seq now law hs hn hl y =
        let m = length meta in
        let n = length payload in
        let head = frame_head seq now m n [] in
        let crc = crc32 (crc32 0 head) (meta ++ payload) % 2 ^ 32 in
        rw
          (
            header-eq seq now m n (packet_crc crc32 (header seq now m n) meta payload % 2 ^ 32)
                (meta ++ payload),
            header_nil seq now m n,
            small_mod m (omega arith),
            small_mod n (omega arith),
            packet_crc-eq head meta payload (omega arith) (omega arith) (omega arith) law,
          )
          (decode_datagram-frame_head yaml_load seq now crc meta payload hs hn (omega arith) hl refl
            y)
