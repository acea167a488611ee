-- ===== src/Transport/Packing.antt =====
-- The arrays of a command in a datagram: g1_sim2real/src/g1_npz_policy.cpp, `PackedArray`,
-- `append_array` and the payload of `RobotTransport::send`. `bytes_of` gives the four bytes of a `float`.
use mathlib.Core.Path.{subst}
use grit_deploy_onboard_g.Prelude.{
  ℕ, ◌+◌, ◌*◌, ◌≤◌, ◌≡◌, refl, ap, sym, ◌∙◌, arith, List, [], ◌∷◌, ◌++◌, length, append_assoc,
  append_nil, length-append, take-append, drop-append, le→leb, Result, ok, ◌>>=◌, slice, map_m,
}
use grit_deploy_onboard_g.Segment.{below, below_from}
use grit_deploy_onboard_g.Bridge.Arrays.{read_elements}
use grit_deploy_onboard_g.Transport.{Command}

pub record PackedArray : Type 0 where
  pub offset : ℕ
  pub bytes : ℕ
  pub count : ℕ

module _ {ℓ} {F : Type ℓ} (bytes_of : F → List ℕ) where
  -- The memory of the values.
  abbrev pub memory : List F → List ℕ
  memory [] = []
  memory (value ∷ values) = bytes_of value ++ memory values

  unfoldable pub append_array : List ℕ → List F → List ℕ × PackedArray
  append_array payload values = (
    payload ++ memory values,
    record { offset = length payload; bytes = length values * 4; count = length values },
  )

-- The payload of a command, and where its arrays are.
pub record Packed : Type 0 where
  pub payload : List ℕ
  pub q_ref : PackedArray
  pub qd_ref : PackedArray
  pub kp_ref : PackedArray
  pub kd_ref : PackedArray

module _ {ℓ} {F : Type ℓ} (bytes_of : F → List ℕ) where
  unfoldable pub pack_command : Command F → Packed
  pack_command c =
      let q = append_array bytes_of [] c.q_des in
      let qd = append_array bytes_of q.0 c.qd_des in
      let kp = append_array bytes_of qd.0 c.kp in
      let kd = append_array bytes_of kp.0 c.kd in
      record { payload = kd.0; q_ref = q.1; qd_ref = qd.1; kp_ref = kp.1; kd_ref = kd.1 }

-- The bridge's loop over the elements of an array of `float`s.
abbrev pub read_back {ℓ} : {F : Type ℓ} → (List ℕ → F) → Packed → PackedArray → Result (List F)
read_back of_f4 p ref = read_elements of_f4 4 p.payload ref.offset ref.count

slice-append :
    (before middle after : List ℕ)
    → slice (before ++ (middle ++ after)) (length before) (length middle) ≡ ok middle
unfolding slice
slice-append before middle after =
    let inside : length before + length middle ≤ length (before ++ (middle ++ after)) =
      omega (arith, length-append before (middle ++ after), length-append middle after) in
    rw
      (
        le→leb (length before + length middle) (length (before ++ (middle ++ after))) inside,
        drop-append before (middle ++ after),
        take-append middle after,
      )
      refl

module _ {ℓ} {F : Type ℓ} (bytes_of : F → List ℕ) (of_f4 : List ℕ → F)
    (four : (x : F) → length (bytes_of x) ≡ 4) (exact : (x : F) → of_f4 (bytes_of x) ≡ x) where
  abbrev read_at : List ℕ → ℕ → ℕ → Result F
  read_at payload offset i = slice payload (offset + i * 4) 4 >>= λ bytes. ok (of_f4 bytes)

  read_from :
      (payload before : List ℕ) (values : List F) (after : List ℕ) (offset t : ℕ)
      → payload ≡ before ++ (memory bytes_of values ++ after)
      → length before ≡ offset + t * 4
      → map_m (read_at payload offset) (below_from t (length values)) ≡ ok values
  unfolding map_m below_from
  read_from payload before [] after offset t e h = refl
  read_from payload before (x ∷ xs) after offset t e h =
      let split : payload ≡ before ++ (bytes_of x ++ (memory bytes_of xs ++ after)) =
        e ∙ ap (λ r. before ++ r) (append_assoc (bytes_of x) (memory bytes_of xs) after) in
      let here : slice payload (offset + t * 4) 4 ≡ ok (bytes_of x) =
        subst (λ n. slice payload (offset + t * 4) n ≡ ok (bytes_of x)) (four x)
          (subst (λ n. slice payload n (length (bytes_of x)) ≡ ok (bytes_of x)) h
            (subst (λ p. slice p (length before) (length (bytes_of x)) ≡ ok (bytes_of x))
              (sym split) (slice-append before (bytes_of x) (memory bytes_of xs ++ after)))) in
      let next =
        read_from payload (before ++ bytes_of x) xs after offset (t + 1)
          (split ∙ sym (append_assoc before (bytes_of x) (memory bytes_of xs ++ after)))
          (omega (arith, length-append before (bytes_of x), four x)) in
      rw (here, next, exact x) refl

  read_packed :
      (payload before : List ℕ) (values : List F) (after : List ℕ)
      → payload ≡ before ++ (memory bytes_of values ++ after)
      → read_elements of_f4 4 payload (length before) (length values) ≡ ok values
  unfolding read_elements below
  read_packed payload before values after e =
      read_from payload before values after (length before) 0 e (omega arith)

  -- The bridge's reading loop gives back each of a command's four arrays from the payload that the policy
  -- packs, whatever their sizes. A `float` is four bytes, and reading its bytes gives the same `float`.
  pub read_back-pack_command :
      (c : Command F)
      → (read_back of_f4 (pack_command bytes_of c) (pack_command bytes_of c).q_ref ≡ ok c.q_des)
        × (read_back of_f4 (pack_command bytes_of c) (pack_command bytes_of c).qd_ref ≡ ok c.qd_des)
        × (read_back of_f4 (pack_command bytes_of c) (pack_command bytes_of c).kp_ref ≡ ok c.kp)
        × (read_back of_f4 (pack_command bytes_of c) (pack_command bytes_of c).kd_ref ≡ ok c.kd)
  unfolding pack_command append_array
  read_back-pack_command c =
      let q = memory bytes_of c.q_des in
      let qd = memory bytes_of c.qd_des in
      let kp = memory bytes_of c.kp in
      let kd = memory bytes_of c.kd in
      let front = append_assoc (q ++ qd) kp kd in
      let all = front ∙ append_assoc q qd (kp ++ kd) in
      (
        read_packed _ [] c.q_des (qd ++ (kp ++ kd)) all,
        read_packed _ q c.qd_des (kp ++ kd) all,
        read_packed _ (q ++ qd) c.kp kd front,
        read_packed _ ((q ++ qd) ++ kp) c.kd []
            (ap (λ r. ((q ++ qd) ++ kp) ++ r) (sym (append_nil kd))),
      )
