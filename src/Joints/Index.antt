-- ===== src/Joints/Index.antt =====
-- The index of a list of names (`source_indices` of g1_npz_policy.cpp) holds each name once, at its place.
use Prim.Native.String.{String}
use mathlib.Core.Path.{subst}
use text.Mathlib.Text.{◌==◌}
use text.Mathlib.TextEquality.{eq_iff}
use grit_deploy_onboard_g.Prelude.{
  ℕ, zero, suc, ◌+◌, ◌≡◌, ◌⊎◌, inl, inr, refl, ap, sym, ◌∙◌, arith, false, if-split, some, is_some,
  List, [], ◌∷◌, ◌++◌ as ◌++ₗ◌, length, get_elem?, length-append, Ensures, returned, Ensures-bind,
  Ensures-require,
}
use grit_deploy_onboard_g.Joints.{find, index_names}

-- An index of `names`: it finds a name at `i` exactly where the name stands.
pub record IsIndex (names : List String) (index : List (String × ℕ)) : Type 0 where
  pub sound : (name : String) (i : ℕ) → find name index ≡ some i → get_elem? names i ≡ some name
  pub complete : (name : String) (i : ℕ) → get_elem? names i ≡ some name → find name index ≡ some i

get_append_left {ℓ} :
    {A : Type ℓ} (xs ys : List A) (i : ℕ) {a : A}
    → get_elem? xs i ≡ some a
    → get_elem? (xs ++ₗ ys) i ≡ some a
get_append_left [] ys i h = cc
get_append_left (x ∷ xs) ys zero h = h
get_append_left (x ∷ xs) ys (suc i) h = get_append_left xs ys i h

get_append_last {ℓ} :
    {A : Type ℓ} (xs : List A) (a : A) → get_elem? (xs ++ₗ (a ∷ [])) (length xs) ≡ some a
get_append_last [] a = refl
get_append_last (x ∷ xs) a = get_append_last xs a

-- An element of a list with one more at its end.
get_append_cases {ℓ} :
    {A : Type ℓ} (xs : List A) (a : A) (i : ℕ) {b : A}
    → get_elem? (xs ++ₗ (a ∷ [])) i ≡ some b
    → (get_elem? xs i ≡ some b) ⊎ ((i ≡ length xs) × (a ≡ b))
get_append_cases [] a zero h = inr (refl, cc)
get_append_cases [] a (suc i) h = cc
get_append_cases (x ∷ xs) a zero h = inl h
get_append_cases (x ∷ xs) a (suc i) h = elim (get_append_cases xs a i h) [
  | inl e ↦ inl e
  | inr (e, f) ↦ inr (ap suc e, f)
]

pub some-eq {ℓ} : {A : Type ℓ} {a b : A} → some a ≡ some b → a ≡ b
some-eq e = cc

find-head :
    (name : String) (i : ℕ) (index : List (String × ℕ)) → find name ((name, i) ∷ index) ≡ some i
unfolding find
find-head name i index = ground (arith, eq_iff name name)

find-tail :
    (name other : String) (i : ℕ) (index : List (String × ℕ))
    → ¬ (other ≡ name)
    → find name ((other, i) ∷ index) ≡ find name index
unfolding find
find-tail name other i index h = ground (arith, eq_iff other name)

find-cases :
    (name other : String) (k : ℕ) (index : List (String × ℕ)) {i : ℕ}
    → find name ((other, k) ∷ index) ≡ some i
    → ((other ≡ name) × (k ≡ i)) ⊎ (find name index ≡ some i)
unfolding find
find-cases name other k index {i} =
    if-split (λ o. o ≡ some i → ((other ≡ name) × (k ≡ i)) ⊎ (find name index ≡ some i))
      (other == name) (λ e h. inl ((eq_iff other name).0 e, cc)) λ _ h. inr h

IsIndex-cons :
    (names : List String) (index : List (String × ℕ)) (name : String)
    → is_some (find name index) ≡ false
    → IsIndex names index
    → IsIndex (names ++ₗ (name ∷ [])) ((name, length names) ∷ index)
IsIndex-cons names index name fresh v =
    let more = (name, length names) ∷ index in
    record {
      sound = λ n i h. elim (find-cases n name (length names) index h) [
        | inl (e, f) ↦
            subst (λ k. get_elem? (names ++ₗ (name ∷ [])) k ≡ some n) f
              (get_append_last names name ∙ ap some e)
        | inr h' ↦ get_append_left names (name ∷ []) i (v.sound n i h')
      ];
      complete = λ n i h. elim (get_append_cases names name i h) [
        | inl e ↦
            find-tail n name (length names) index (λ same.
              cc (fresh, ap (λ s. is_some (find s index)) same ∙ ap is_some (v.complete n i e)))
            ∙ v.complete n i e
        | inr (e, f) ↦
            subst (λ m. find m more ≡ some i) f
              (find-head name (length names) index ∙ ap some (sym e))
      ];
    }

append_one {ℓ} :
    {A : Type ℓ} (xs : List A) (a : A) (ys : List A) → (xs ++ₗ (a ∷ [])) ++ₗ ys ≡ xs ++ₗ (a ∷ ys)
append_one [] a ys = refl
append_one (x ∷ xs) a ys = ap (λ r. x ∷ r) (append_one xs a ys)

append_nil {ℓ} : {A : Type ℓ} (xs : List A) → xs ++ₗ [] ≡ xs
append_nil [] = refl
append_nil (x ∷ xs) = ap (λ r. x ∷ r) (append_nil xs)

index_names-from :
    (message : String) (before names : List String) (index : List (String × ℕ))
    → IsIndex before index
    → Ensures (IsIndex (before ++ₗ names)) (index_names message (length before) names index)
unfolding index_names
index_names-from message before [] index v =
    returned (subst (λ ns. IsIndex ns index) (sym (append_nil before)) v)
index_names-from message before (name ∷ names) index v =
    Ensures-bind (Ensures-require _ _) λ _ fresh.
      let k : length (before ++ₗ (name ∷ [])) ≡ length before + 1 =
        length-append before (name ∷ []) in
      let rest =
        index_names-from message (before ++ₗ (name ∷ [])) names ((name, length before) ∷ index)
          (IsIndex-cons before index name (ground arith) v) in
      let more = (name, length before) ∷ index in
      subst (λ ns. Ensures (IsIndex ns) (index_names message (length before + 1) names more))
        (append_one before name names)
        (subst
          (λ j.
            Ensures (IsIndex ((before ++ₗ (name ∷ [])) ++ₗ names))
              (index_names message j names more))
          k rest)

-- Indexing a list of names throws on a name that stands twice, or gives an index of the list.
pub index_names-IsIndex :
    (message : String) (names : List String)
    → Ensures (IsIndex names) (index_names message 0 names [])
unfolding find
index_names-IsIndex message names =
    index_names-from message [] names [] (record { sound = λ n i h. cc; complete = λ n i h. cc })

-- A list that has an index holds no name twice.
pub IsIndex-unique :
    (names : List String) (index : List (String × ℕ)) (name : String) (i j : ℕ)
    → IsIndex names index
    → get_elem? names i ≡ some name
    → get_elem? names j ≡ some name
    → i ≡ j
IsIndex-unique names index name i j v hi hj =
    some-eq (sym (v.complete name i hi) ∙ v.complete name j hj)
