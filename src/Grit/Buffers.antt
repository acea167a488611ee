-- ===== src/Grit/Buffers.antt =====
-- The observation buffers of `GritPolicy` (g1_npz_policy.cpp, `append_history`, `map_to_reference`): the
-- sizes of histories that fill up, or are full, and of joint values in another order.
use grit_deploy_onboard_g.Prelude.{
  ℕ, suc, ◌*◌, ◌≤◌, ◌<◌, ◌≡◌, refl, arith, false, List, [], ◌∷◌, map, ◌==◌, ==_refl, ap₂, length,
  drop, length-append, length-drop, All, Ensures, Ensures-at, Ensures-map_m, Ensures-weaken, at,
}
use grit_deploy_onboard_g.Segment.{dof}
use grit_deploy_onboard_g.Grit.{history_length, gather, append_history, append_histories}
use grit_deploy_onboard_g.Grit.Invariant.{IsJointMap}

-- The sample sizes of the six terms.
abbrev pub term_sizes : List ℕ
term_sizes = 3 ∷ 3 ∷ 6 ∷ 29 ∷ 29 ∷ 29 ∷ []

-- The sizes of a history that holds `n` samples.
abbrev pub history_sizes : ℕ → List ℕ → List ℕ
history_sizes n [] = []
history_sizes n (k ∷ ks) = n * k ∷ history_sizes n ks

sample_le : (n k : ℕ) → n < history_length → suc n * k ≤ history_length * k
sample_le n k h = grind arith

not_full : (n k : ℕ) → n < history_length → 0 < k → (n * k == history_length * k) ≡ false
not_full n k hn hk = ground (arith, sample_le n k hn)

module _ {ℓ} {F : Type ℓ} where
  pub length-gather :
      (values : List F) (indices : List ℕ)
      → length values ≡ dof
      → IsJointMap indices
      → Ensures (λ xs. length xs ≡ dof) (gather values indices)
  unfolding gather
  length-gather values indices e m =
      Ensures-weaken
        (Ensures-map_m (λ i. i < dof) (λ _. Unit {0}) (at values) indices
          (λ i h. Ensures-weaken (Ensures-at values i (omega arith)) (λ _ _. tt)) m.bounded)
        λ xs h. omega (arith, h.1, m.size)

  length-append_history :
      (n k : ℕ) (history values : List F)
      → length history ≡ n * k
      → length values ≡ k
      → n < history_length
      → 0 < k
      → length (append_history history values) ≡ suc n * k
  unfolding append_history
  length-append_history n k history values h e hn hk =
      rw (h, e, not_full n k hn hk) (omega (arith, length-append history values))

  length-append_history_full :
      (k : ℕ) (history values : List F)
      → length history ≡ history_length * k
      → length values ≡ k
      → length (append_history history values) ≡ history_length * k
  unfolding append_history
  length-append_history_full k history values h e =
      rw (h, e, ==_refl (history_length * k))
        (omega (arith, length-append (drop k history) values, length-drop k history))

  -- A sample added to a history that is filling, and to a full one.
  pub append_histories-fill :
      (n : ℕ) (ks : List ℕ) (history terms : List (List F))
      → n < history_length
      → All (λ k. 0 < k) ks
      → map length history ≡ history_sizes n ks
      → map length terms ≡ ks
      → map length (append_histories history terms) ≡ history_sizes (suc n) ks
  unfolding append_histories
  append_histories-fill n [] [] terms hn hk h e = refl
  append_histories-fill n [] (x ∷ xs) terms hn hk h e = cc
  append_histories-fill n (k ∷ ks) [] terms hn hk h e = cc
  append_histories-fill n (k ∷ ks) (x ∷ xs) [] hn hk h e = cc
  append_histories-fill n (k ∷ ks) (x ∷ xs) (t ∷ ts) hn hk h e =
      ap₂ ◌∷◌ (length-append_history n k x t (cc) (cc) hn hk.0)
        (append_histories-fill n ks xs ts hn hk.1 (cc) (cc))

  pub append_histories_full :
      (ks : List ℕ) (history terms : List (List F))
      → map length history ≡ history_sizes history_length ks
      → map length terms ≡ ks
      → map length (append_histories history terms) ≡ history_sizes history_length ks
  unfolding append_histories
  append_histories_full [] [] terms h e = refl
  append_histories_full [] (x ∷ xs) terms h e = cc
  append_histories_full (k ∷ ks) [] terms h e = cc
  append_histories_full (k ∷ ks) (x ∷ xs) [] h e = cc
  append_histories_full (k ∷ ks) (x ∷ xs) (t ∷ ts) h e =
      ap₂ ◌∷◌ (length-append_history_full k x t (cc) (cc))
        (append_histories_full ks xs ts (cc) (cc))
