-- ===== src/Transport/Opened.antt =====
-- Lemmas on the opening of a datagram of the bridge (g1_sim2real/src/g1_npz_policy.cpp, `read_array` and
-- `RobotTransport::receive`).
use Prim.Native.String.{String}
use grit_deploy_onboard_g.Prelude.{
  ℕ, ◌+◌, ◌%◌, ◌^◌, ◌≤◌, ◌<◌, ◌≡◌, arith, List, length, ==→eq, Result, Ensures, returned,
  Ensures-bind, Ensures-require, Ensures-if, Ensures-slice,
}
use grit_deploy_onboard_g.Floats.{Floats}
use grit_deploy_onboard_g.Geometry.Totality.{Always}
use grit_deploy_onboard_g.Yaml.{Yaml, YamlFloats, same_text}
use grit_deploy_onboard_g.Yaml.Reads.{IsYaml}
use grit_deploy_onboard_g.Wire.{header_size, crc_size}
use grit_deploy_onboard_g.Wire.Checks.{read_u32_be-Ensures, read_u64_be-Ensures}
use grit_deploy_onboard_g.Bridge.Arrays.Bounds.{read_elements-length}
use grit_deploy_onboard_g.Transport.Packet.{
  text_of, type_of, is_f4_text, is_float_array, read_array, read_button, read_stick, open_packet,
}

module _ {κ} {N : Type κ} ⦃yaml : Yaml N⦄ (law : IsYaml yaml) where
  text_of-Always : (meta : N) (key : String) → Always (text_of meta key)
  unfolding text_of
  text_of-Always meta key = Ensures-bind (law.child meta key) λ _ _. returned tt

  type_of-Always : (meta : N) → Always (type_of meta)
  unfolding type_of
  type_of-Always meta =
      Ensures-if (yaml.is_defined meta) (text_of-Always meta "__udp_latest_type__") (returned tt)

  is_f4_text-Always : (meta : N) → Always (is_f4_text meta)
  unfolding is_f4_text
  is_f4_text-Always meta = Ensures-bind (text_of-Always meta "dtype") λ _ _. returned tt

  is_float_array-Always : (meta : N) → Always (is_float_array meta)
  unfolding is_float_array
  is_float_array-Always meta =
      Ensures-bind (type_of-Always meta)
        λ name _. Ensures-if (same_text name "ndarray") (is_f4_text-Always meta) (returned tt)

  pub read_array-length {ℓ} :
      {F : Type ℓ} (of_f4 : List ℕ → F) (root : N) (payload : List ℕ) (key : String) (expected : ℕ)
      → Ensures (λ out. length out ≡ expected) (read_array of_f4 root payload key expected)
  unfolding read_array
  read_array-length of_f4 root payload key expected = Ensures-bind (law.child root key) λ meta _.
      Ensures-bind (is_float_array-Always meta) λ _ _. Ensures-bind (Ensures-require _ _) λ _ _.
        Ensures-bind (law.child meta "offset") λ _ _. Ensures-bind (law.as_size _) λ offset _.
          Ensures-bind (law.child meta "nbytes") λ _ _. Ensures-bind (law.as_size _) λ bytes _.
            Ensures-bind (Ensures-require _ _)
              λ _ sized. read_elements-length of_f4 4 payload offset expected (ground arith)

  pub read_button-Always : (meta : N) (key : String) → Always (read_button meta key)
  unfolding read_button
  read_button-Always meta key =
      Ensures-bind (law.child meta "buttons")
        λ buttons _. Ensures-bind (law.child buttons key) λ _ _. returned tt

  pub read_stick-Always {ℓ} :
      {F : Type ℓ} ⦃fl : Floats F⦄ ⦃floats : YamlFloats N F⦄ (meta : N) (key : String)
      → Always (read_stick {F = F} meta key)
  unfolding read_stick
  read_stick-Always meta key =
      Ensures-bind (law.child meta "sticks")
        λ sticks _. Ensures-bind (law.child sticks key) λ _ _. returned tt

module _ {κ} {N : Type κ} (crc32 : ℕ → List ℕ → ℕ) (yaml_load : List ℕ → Result N)
    (loads : (text : List ℕ) → Always (yaml_load text)) where
  pub open_packet-Always :
      (packet : List ℕ) → length packet < 2 ^ 32 → Always (open_packet crc32 yaml_load packet)
  unfolding open_packet
  open_packet-Always packet small = Ensures-bind (Ensures-require _ _) λ _ long.
      let enough : 36 ≤ length packet = ground arith in
      Ensures-bind (read_u32_be-Ensures packet 24 (omega arith)) λ m _.
        Ensures-bind (read_u32_be-Ensures packet 28 (omega arith)) λ n _.
          Ensures-bind (Ensures-require _ _) λ _ sized.
            let total = ==→eq (length packet) (header_size + crc_size + m + n) sized in
            Ensures-bind (read_u32_be-Ensures packet 32 (omega arith)) λ _ _.
              Ensures-bind (Ensures-slice packet 0 32 (omega arith)) λ _ _.
                Ensures-bind (Ensures-slice packet 36 ((m + n) % 2 ^ 32) (omega arith)) λ _ _.
                  Ensures-bind (Ensures-require _ _) λ _ _.
                    Ensures-bind (Ensures-slice packet 36 m (omega arith)) λ text _.
                      Ensures-bind (loads text) λ _ _.
                        Ensures-bind (Ensures-slice packet (36 + m) n (omega arith)) λ _ _.
                          Ensures-bind (read_u64_be-Ensures packet 8 (omega arith))
                            λ _ _. returned tt
