-- ===== src/Bridge/Arrays/Bounds.antt =====
-- The bounds of `read_array_as_double` (g1_udp_bridge.cpp).
use native.Mathlib.Nat.{le-div_iff_mul-le}
use grit_deploy_onboard_g.Prelude.{
  ℕ, zero, suc, ◌+◌, ◌-◌, ◌*◌, ◌/◌, ◌%◌, ◌^◌, ◌≤◌, ◌<◌, ◌≡◌, refl, arith, true, not, ◌&&◌, List, [],
  ◌∷◌, length, ltb, ◌==◌, Ensures, returned, thrown, Ensures-bind, Ensures-require, Ensures-split,
  Ensures-weaken, Ensures-slice, Ensures-map_m, ==→eq, Ensures-self, map_m, ok, ap, ◌∙◌,
}
use Prim.Native.String.{String}
use grit_deploy_onboard_g.Segment.{below}
use grit_deploy_onboard_g.Segment.Shape.{below-lt, length-below}
use grit_deploy_onboard_g.Yaml.{Yaml}
use grit_deploy_onboard_g.Yaml.Reads.{IsYaml}
use grit_deploy_onboard_g.Bridge.Arrays.{
  count_dim, max_doubles, is_f4, is_f8, read_elements, read_values, count_shape,
  read_array_as_double,
}

-- The product of a list of dimensions, without a bound.
abbrev pub product : List ℕ → ℕ
product [] = 1
product (d ∷ ds) = d * product ds

pub fits_mul :
    (count d : ℕ)
    → not (not (d == 0) && ltb ((2 ^ 64 - 1) / d) count) ≡ true
    → count * d ≤ 2 ^ 64 - 1
fits_mul count zero h = omega arith
fits_mul count (suc d) h =
    let le : count ≤ (2 ^ 64 - 1) / suc d = ground arith in (le-div_iff_mul-le (omega arith)).0 le

count_dim-Ensures :
    (key : String) (count d : ℕ)
    → Ensures (λ n. (n ≡ count * d) × (n < 2 ^ 64)) (count_dim key count d)
unfolding count_dim
count_dim-Ensures key count d =
    Ensures-bind (Ensures-require _ _)
      λ _ fits. let le = fits_mul count d fits in returned (omega (arith, le), omega (arith, le))

pub mul_assoc : (a b c : ℕ) → (a * b) * c ≡ a * (b * c)
mul_assoc a b c = grind arith

pub row_le : (i count size : ℕ) → i < count → i * size + size ≤ count * size
row_le i count size h = grind arith

pub read_elements-length {κ} :
    {F : Type κ} (of_bytes : List ℕ → F) (size : ℕ) (payload : List ℕ) (offset count : ℕ)
    → offset + count * size ≤ length payload
    → Ensures (λ out. length out ≡ count) (read_elements of_bytes size payload offset count)
unfolding read_elements
read_elements-length of_bytes size payload offset count h =
    Ensures-weaken
      (Ensures-map_m (λ i. i < count) (λ x. Unit {0}) _ (below count)
        (λ i lt.
          Ensures-bind
            (Ensures-slice payload (offset + i * size) size (omega (arith, row_le i count size lt)))
            λ _ _. returned tt)
        (below-lt count))
      λ out e. e.1 ∙ length-below count

read_values-length {κ} :
    {F : Type κ} (of_f4 of_f8 : List ℕ → F) (key dtype : String) (count offset nbytes : ℕ)
    (payload : List ℕ)
    → offset + nbytes ≤ length payload
    → Ensures
        (λ out. length out ≡ count)
        (read_values of_f4 of_f8 key dtype count offset nbytes payload)
unfolding read_values
read_values-length of_f4 of_f8 key dtype count offset nbytes payload h =
    Ensures-bind (Ensures-require _ _) λ _ allocated.
      let small : count ≤ max_doubles = ground arith in
      Ensures-split (is_f4 dtype)
        (λ _. Ensures-bind (Ensures-require _ _) λ _ sized.
          let e = ==→eq nbytes (count * 4 % 2 ^ 64) sized in
          read_elements-length of_f4 4 payload offset count (omega arith))
        λ _.
          Ensures-split (is_f8 dtype)
            (λ _. Ensures-bind (Ensures-require _ _) λ _ sized.
              let e = ==→eq nbytes (count * 8 % 2 ^ 64) sized in
              read_elements-length of_f8 8 payload offset count (omega arith))
            λ _. thrown

module _ {ℓ} {N : Type ℓ} ⦃yaml : Yaml N⦄ (law : IsYaml yaml) where
  count_shape-Ensures :
      (key : String) (count : ℕ) (dims : List N)
      → count < 2 ^ 64
      → Ensures
          (λ n.
            (ds : List ℕ) × (map_m yaml.as_size dims ≡ ok ds)
            × (n ≡ count * product ds)
            × (n < 2 ^ 64))
          (count_shape key count dims)
  unfolding count_shape map_m
  count_shape-Ensures key count [] h = returned ([], refl, omega arith, h)
  count_shape-Ensures key count (dim ∷ dims) h =
      Ensures-bind (Ensures-self (law.as_size dim)) λ d (small, e).
        Ensures-bind (count_dim-Ensures key count d) λ next (en, hn).
          Ensures-weaken (count_shape-Ensures key next dims hn) λ n (ds, eds, ev, hv). (
            d ∷ ds,
            rw (e, eds) refl,
            ev ∙ ap (λ k. k * product ds) en ∙ mul_assoc count d (product ds),
            hv,
          )

  -- Whatever a command's text claims about an array, the reader stays within the payload: it throws,
  -- or returns as many values as the product of the array's dimensions, taken without overflow.
  -- yaml-cpp is assumed to return or throw, and to convert to 64-bit numbers.
  pub read_array_as_double-length {κ} :
      {F : Type κ} (of_f4 of_f8 : List ℕ → F) (root : N) (payload : List ℕ) (key : String)
      → Ensures
          (λ out.
            (ds : List ℕ) × (map_m yaml.as_size (yaml.items (yaml.get (yaml.get root key) "shape"))
              ≡ ok ds)
            × (length out ≡ product ds))
          (read_array_as_double of_f4 of_f8 root payload key)
  unfolding read_array_as_double
  read_array_as_double-length of_f4 of_f8 root payload key =
      Ensures-bind (Ensures-require _ _) λ _ _. Ensures-bind (law.as_string _) λ _ _.
        Ensures-bind (Ensures-require _ _) λ _ _. Ensures-bind (law.as_string _) λ dtype _.
          Ensures-bind (law.as_size _) λ offset _. Ensures-bind (law.as_size _) λ nbytes _.
            Ensures-bind (Ensures-require _ _) λ _ _.
              Ensures-bind (count_shape-Ensures key 1 _ (omega arith))
                λ count (ds, e, product_eq, _). Ensures-bind (Ensures-require _ _) λ _ inside.
                  Ensures-weaken
                    (read_values-length of_f4 of_f8 key dtype count offset nbytes payload
                      (ground arith))
                    λ out sized. (ds, e, omega arith)
