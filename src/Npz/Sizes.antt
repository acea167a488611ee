-- ===== src/Npz/Sizes.antt =====
-- The sizes of numeric arrays: `NpyArray::element_count` and `NpyArray::as_float`
-- (g1_sim2real/src/npz_reader.cpp).
use grit_deploy_onboard_g.Prelude.{
  ℕ, ◌*◌, ◌%◌, ◌^◌, ◌≤◌, ◌<◌, ◌≡◌, arith, ◌∙◌, List, [], ◌∷◌, length, ==→eq, Ensures, returned,
  thrown, Ensures-bind, Ensures-require, Ensures-split, Ensures-weaken,
}
use grit_deploy_onboard_g.Bridge.Arrays.Bounds.{product, fits_mul, mul_assoc, read_elements-length}
use grit_deploy_onboard_g.Npz.{
  NpyArray, count_from, element_count, is_float32, is_float64, max_floats, as_float32, as_float64,
  as_float,
}

count_from-Ensures :
    (count : ℕ) (dims : List ℕ)
    → count < 2 ^ 64
    → Ensures (λ n. (n ≡ count * product dims) × (n < 2 ^ 64)) (count_from count dims)
unfolding count_from
count_from-Ensures count [] h = returned (omega arith, h)
count_from-Ensures count (dim ∷ dims) h = Ensures-bind (Ensures-require _ _) λ _ fits.
    let le = fits_mul count dim fits in
    let e : count * dim % 2 ^ 64 ≡ count * dim = omega (arith, le) in
    Ensures-weaken (count_from-Ensures (count * dim % 2 ^ 64) dims (omega arith))
      λ n h. (h.0 ∙ rw e (mul_assoc count dim (product dims)), h.1)

module _ {ℓ} {F : Type ℓ} (of_f4 of_f8 : List ℕ → F) where
  as_float32-length :
      (bytes : List ℕ) (count : ℕ)
      → count ≤ max_floats
      → Ensures (λ out. length out ≡ count) (as_float32 of_f4 of_f8 bytes count)
  unfolding as_float32
  as_float32-length bytes count small = Ensures-bind (Ensures-require _ _) λ _ sized.
      let e = ==→eq (length bytes) (count * 4 % 2 ^ 64) sized in
      read_elements-length of_f4 4 bytes 0 count (omega arith)

  as_float64-length :
      (bytes : List ℕ) (count : ℕ)
      → count * 8 < 2 ^ 64
      → Ensures (λ out. length out ≡ count) (as_float64 of_f4 of_f8 bytes count)
  unfolding as_float64
  as_float64-length bytes count small = Ensures-bind (Ensures-require _ _) λ _ sized.
      let e = ==→eq (length bytes) (count * 8 % 2 ^ 64) sized in
      read_elements-length of_f8 8 bytes 0 count (omega arith)

  -- Whatever the header of an array claims, its values are as many as the product of its dimensions,
  -- taken without overflow, and all of its bytes are read within bounds; or the reader throws.
  pub as_float-length :
      (array : NpyArray)
      → Ensures
          (λ out. (length out ≡ product array.shape) × (product array.shape < 2 ^ 64))
          (as_float of_f4 of_f8 array)
  unfolding as_float element_count
  as_float-length array = Ensures-bind (Ensures-require _ _) λ _ _.
      Ensures-bind (count_from-Ensures 1 array.shape (omega arith)) λ count h.
        Ensures-bind (Ensures-require _ _) λ _ allocated.
          let small : count ≤ max_floats = ground arith in
          Ensures-split (is_float32 array.dtype)
            (λ _.
              Ensures-weaken (as_float32-length array.bytes count small)
                λ out e. (omega (arith, h), omega (arith, h)))
            λ _.
              Ensures-split (is_float64 array.dtype)
                (λ _.
                  Ensures-weaken (as_float64-length array.bytes count (omega arith))
                    λ out e. (omega (arith, h), omega (arith, h)))
                λ _. thrown
