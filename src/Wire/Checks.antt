-- ===== src/Wire/Checks.antt =====
-- What `decode_datagram` of g1_udp_bridge.cpp does with bytes from anywhere: no read leaves the
-- buffer, and what it accepts has passed every check.
use grit_deploy_onboard_g.Prelude.{
  ℕ, ◌+◌, ◌-◌, ◌%◌, ◌^◌, ◌≤◌, ◌<◌, ◌≡◌, refl, sym, ap, ap₂, ◌∙◌, arith, true, and_left, and_right,
  List, [], ◌∷◌, length, take, drop, get_elem?, some, length-drop, take_all, Result, ok, Ensures,
  returned, Ensures-bind, Ensures-require, Ensures-at, Ensures-slice, Ensures-self, ==→eq,
}
use grit_deploy_onboard_g.Wire.{
  header_size, crc_size, version, LatestPacket, read_u32_be, read_u64_be, list_eq, decode_datagram,
  magic, push_bytes,
}

pub list_eq→eq : (xs ys : List ℕ) → list_eq xs ys ≡ true → xs ≡ ys
unfolding list_eq
list_eq→eq [] [] h = refl
list_eq→eq [] (y ∷ ys) h = cc
list_eq→eq (x ∷ xs) [] h = cc
list_eq→eq (x ∷ xs) (y ∷ ys) h =
    ap₂ (λ z zs. z ∷ zs) (==→eq x y (and_left _ _ h)) (list_eq→eq xs ys (and_right _ _ h))

pub read_u32_be-Ensures :
    (xs : List ℕ) (i : ℕ)
    → i + 4 ≤ length xs
    → Ensures (λ v. Unit {0} × (read_u32_be xs i ≡ ok v)) (read_u32_be xs i)
unfolding read_u32_be
read_u32_be-Ensures xs i h = Ensures-self (
    Ensures-bind (Ensures-at xs i (omega arith)) λ _ _.
      Ensures-bind (Ensures-at xs (i + 1) (omega arith)) λ _ _.
        Ensures-bind (Ensures-at xs (i + 2) (omega arith))
          λ _ _. Ensures-bind (Ensures-at xs (i + 3) (omega arith)) λ _ _. returned tt)

pub read_u64_be-Ensures :
    (xs : List ℕ) (i : ℕ)
    → i + 8 ≤ length xs
    → Ensures (λ v. v ≡ push_bytes 0 (take 8 (drop i xs))) (read_u64_be xs i)
unfolding read_u64_be
read_u64_be-Ensures xs i h =
    Ensures-bind (Ensures-slice xs i 8 h) λ bytes (e, sized). returned (ap (push_bytes 0) e)

-- The last `n` elements, where nothing follows them.
rest_of : (xs : List ℕ) (i n : ℕ) → length xs ≡ i + n → take n (drop i xs) ≡ drop (length xs - n) xs
rest_of xs i n h =
    let e : length (drop i xs) ≡ n = omega (arith, length-drop i xs) in
    let f : length xs - n ≡ i = omega arith in rw (f, sym e) (take_all (drop i xs))

payload_rest :
    (xs payload : List ℕ) (i n : ℕ)
    → length xs ≡ i + n
    → payload ≡ take n (drop i xs)
    → length payload ≡ n
    → payload ≡ drop (length xs - length payload) xs
payload_rest xs payload i n total e sized =
    e ∙ rest_of xs i n total ∙ ap (λ k. drop (length xs - k) xs) (sym sized)

whole : (xs : List ℕ) (i n : ℕ) → n ≡ length xs - i → take n (drop i xs) ≡ drop i xs
whole xs i n h =
    let e : n ≡ length (drop i xs) = omega (arith, length-drop i xs) in rw e (take_all (drop i xs))

module _ {ℓ} (crc32 : ℕ → List ℕ → ℕ) {N : Type ℓ} (yaml_load : List ℕ → Result N) where
  -- What an accepted packet has shown.
  pub record IsAccepted (packet : List ℕ) (r : LatestPacket N) : Type ℓ where
    pub starts_with_magic : take 4 packet ≡ magic
    pub version_read : get_elem? packet 4 ≡ some version
    pub meta_size : ℕ
    pub meta_read : read_u32_be packet 24 ≡ ok meta_size
    pub payload_read : read_u32_be packet 28 ≡ ok (length r.payload)
    pub sized : length packet ≡ header_size + crc_size + meta_size + length r.payload
    pub payload : r.payload ≡ drop (length packet - length r.payload) packet
    pub seq : r.seq ≡ push_bytes 0 (take 8 (drop 8 packet))
    pub send_time : r.send_time_ns ≡ push_bytes 0 (take 8 (drop 16 packet))
    pub recv_time : r.recv_time_ns ≡ 0
    pub crc : ℕ
    pub crc_read : read_u32_be packet header_size ≡ ok crc
    pub checked : crc32 (crc32 0 (take 32 packet)) (drop 36 packet) % 2 ^ 32 ≡ crc
    pub root : yaml_load (take meta_size (drop 36 packet)) ≡ ok r.root

  -- Any buffer below 2^32 bytes is decoded without a read outside it: the decoder throws, or accepts
  -- a packet that starts with the magic, has version 1 in byte 4, and adds up to the header and the two
  -- sizes that bytes 24 to 31 give for the text and the arrays. Its checksum is that of the header and
  -- the rest; its sequence number, time, text and arrays are the bytes at their places.
  -- YAML's loader is assumed to return a node or throw.
  pub decode_datagram-IsAccepted :
      (packet : List ℕ)
      → length packet < 2 ^ 32
      → ((text : List ℕ) → Ensures (λ n. Unit {0}) (yaml_load text))
      → Ensures (IsAccepted packet) (decode_datagram crc32 yaml_load packet)
  unfolding decode_datagram
  decode_datagram-IsAccepted packet small loads = Ensures-bind (Ensures-require _ _) λ _ long.
      Ensures-bind (Ensures-require _ _) λ _ is_magic.
        let enough : 36 ≤ length packet = ground arith in
        Ensures-bind (Ensures-at packet 4 (omega arith)) λ _ hversion.
          Ensures-bind (Ensures-require _ _) λ _ is_version.
            Ensures-bind (read_u64_be-Ensures packet 8 (omega arith)) λ seq hseq.
              Ensures-bind (read_u64_be-Ensures packet 16 (omega arith)) λ now hnow.
                Ensures-bind (read_u32_be-Ensures packet 24 (omega arith)) λ m hm.
                  Ensures-bind (read_u32_be-Ensures packet 28 (omega arith)) λ n hn.
                    Ensures-bind (Ensures-require _ _) λ _ sized.
                      let total = ==→eq (length packet) (header_size + crc_size + m + n) sized in
                      Ensures-bind (read_u32_be-Ensures packet 32 (omega arith)) λ crc hcrc.
                        Ensures-bind (Ensures-slice packet 0 32 (omega arith)) λ head hhead.
                          Ensures-bind (Ensures-slice packet 36 ((m + n) % 2 ^ 32) (omega arith))
                            λ body hbody. Ensures-bind (Ensures-require _ _) λ _ checked.
                              Ensures-bind (Ensures-slice packet 36 m (omega arith)) λ meta hmeta.
                                Ensures-bind (Ensures-slice packet (36 + m) n (omega arith))
                                  λ payload hpayload.
                                    Ensures-bind (Ensures-self (loads meta)) λ root hroot.
                                      returned (record {
                                        starts_with_magic = sym (list_eq→eq _ _ is_magic);
                                        version_read = hversion ∙ ap some (==→eq _ _ is_version);
                                        meta_size = m;
                                        meta_read = hm.1;
                                        payload_read = hn.1 ∙ ap ok (sym hpayload.1);
                                        sized = omega (arith, hpayload.1);
                                        payload =
                                            payload_rest packet payload (36 + m) n total hpayload.0
                                              hpayload.1;
                                        seq = hseq;
                                        send_time = hnow;
                                        recv_time = refl;
                                        crc = crc;
                                        crc_read = hcrc.1;
                                        checked =
                                            ap₂ (λ h b. crc32 (crc32 0 h) b % 2 ^ 32) (sym hhead.0)
                                              (sym (hbody.0 ∙ whole packet 36 _ (omega arith)))
                                            ∙ ==→eq _ _ checked;
                                        root = ap yaml_load (sym hmeta.0) ∙ hroot.1;
                                      })
