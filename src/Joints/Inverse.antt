-- ===== src/Joints/Inverse.antt =====
-- The two joint maps of the programs are inverse to each other: `source_indices` of g1_npz_policy.cpp,
-- `build_source_indices` of g1_udp_bridge.cpp.
use Prim.Native.String.{String, ◌++◌}
use mathlib.Core.Path.{subst}
use grit_deploy_onboard_g.Prelude.{
  ℕ, zero, suc, ◌<◌, ◌≡◌, refl, ap, sym, ◌∙◌, arith, Option, none, some, List, [], ◌∷◌, All, length,
  get_elem?, get_elem?-lt, get_elem?-lt_some, ok, Ensures, returned, thrown, Ensures-bind,
  Ensures-weaken, Ensures-at, at, map_m,
}
use grit_deploy_onboard_g.Grit.{gather}
use grit_deploy_onboard_g.Joints.{find, index_or_throw, build_source_indices, source_indices}
use grit_deploy_onboard_g.Joints.Index.{some-eq, IsIndex, index_names-IsIndex, IsIndex-unique}

-- The index list of one order in another: place `k` of the target holds the name that the source has at
-- `indices[k]`, and the source holds no name twice.
pub record IsMap (target source : List String) (indices : List ℕ) : Type 0 where
  pub size : length indices ≡ length target
  pub names : (k i : ℕ) → get_elem? indices k ≡ some i → get_elem? source i ≡ get_elem? target k
  pub unique :
      (name : String) (i j : ℕ)
      → get_elem? source i ≡ some name
      → get_elem? source j ≡ some name
      → i ≡ j
  pub bounded : All (λ i. i < length source) indices

-- The part of `IsMap` on the names, for the loop.
record Finds (target source : List String) (indices : List ℕ) : Type 0 where
  size : length indices ≡ length target
  names : (k i : ℕ) → get_elem? indices k ≡ some i → get_elem? source i ≡ get_elem? target k
  bounded : All (λ i. i < length source) indices

Finds-cons :
    (target source : List String) (indices : List ℕ) (name : String) (i : ℕ)
    → get_elem? source i ≡ some name
    → Finds target source indices
    → Finds (name ∷ target) source (i ∷ indices)
Finds-cons target source indices name i e v = record {
  size = ap suc v.size;
  names = λ k j h. place k j h;
  bounded = (get_elem?-lt source i e, v.bounded);
}
  where
    place :
        (k j : ℕ)
        → get_elem? (i ∷ indices) k ≡ some j
        → get_elem? source j ≡ get_elem? (name ∷ target) k
    place zero j h = ap (get_elem? source) (sym (some-eq h)) ∙ e
    place (suc k) j h = v.names k j h

found :
    (message name : String) (o : Option ℕ) (source : List String)
    → ((i : ℕ) → o ≡ some i → get_elem? source i ≡ some name)
    → Ensures (λ i. get_elem? source i ≡ some name) (index_or_throw message o)
found message name none source h = thrown
found message name (some i) source h = returned (h i refl)

build_source_indices-Finds :
    (target source : List String) (index : List (String × ℕ)) (message : String)
    → IsIndex source index
    → Ensures (Finds target source) (build_source_indices target index message)
unfolding build_source_indices map_m
build_source_indices-Finds [] source index message v =
    returned (record { size = refl; names = λ k i h. cc; bounded = tt })
build_source_indices-Finds (name ∷ target) source index message v =
    Ensures-bind (found (message ++ name) name (find name index) source (v.sound name)) λ i e.
      Ensures-bind (build_source_indices-Finds target source index message v)
        λ indices h. returned (Finds-cons target source indices name i e h)

-- Two joint lists give an index list of the target's size, into the source and with the target's name at
-- each place, or an exception: on a source with a name that stands twice, or on a missing name.
pub source_indices-IsMap :
    (target source : List String) (label : String)
    → Ensures (IsMap target source) (source_indices target source label)
unfolding source_indices
source_indices-IsMap target source label = Ensures-bind (index_names-IsIndex _ source) λ index v.
    Ensures-weaken (build_source_indices-Finds target source index _ v) λ indices h. record {
      size = h.size;
      names = h.names;
      unique = λ name i j hi hj. IsIndex-unique source index name i j v hi hj;
      bounded = h.bounded;
    }

points-cons {ℓ} :
    {F : Type ℓ} (values : List F) (j : ℕ) (indices : List ℕ) (a : F) (out : List F)
    → get_elem? values j ≡ some a
    → ((k i : ℕ) → get_elem? indices k ≡ some i → get_elem? out k ≡ get_elem? values i)
    → (k i : ℕ) → get_elem? (j ∷ indices) k ≡ some i
    → get_elem? (a ∷ out) k ≡ get_elem? values i
points-cons values j indices a out e points zero i h = sym e ∙ ap (get_elem? values) (some-eq h)
points-cons values j indices a out e points (suc k) i h = points k i h

module _ {ℓ} {F : Type ℓ} where
  -- A gathered list holds, at each place, the element that the index list names.
  gather-points :
      (values : List F) (indices : List ℕ)
      → All (λ i. i < length values) indices
      → Ensures
          (λ out. (k i : ℕ) → get_elem? indices k ≡ some i → get_elem? out k ≡ get_elem? values i)
          (gather values indices)
  unfolding gather map_m
  gather-points values [] h = returned λ k i e. cc
  gather-points values (j ∷ indices) h = Ensures-bind (Ensures-at values j h.0) λ a e.
      Ensures-bind (gather-points values indices h.1)
        λ out points. returned (points-cons values j indices a out e points)

  -- Gathering gives the list that has the named elements at its places.
  gather-eq :
      (values : List F) (indices : List ℕ) (out : List F)
      → length indices ≡ length out
      → ((k i : ℕ) (a : F)
          → get_elem? indices k ≡ some i
          → get_elem? out k ≡ some a
          → get_elem? values i ≡ some a)
      → gather values indices ≡ ok out
  unfolding gather map_m at
  gather-eq values [] [] sized h = refl
  gather-eq values [] (a ∷ out) sized h = absurd (omega arith)
  gather-eq values (i ∷ indices) [] sized h = absurd (omega arith)
  gather-eq values (i ∷ indices) (a ∷ out) sized h =
      rw (h 0 i a refl refl, gather-eq values indices out (omega arith) (λ k j b. h (suc k) j b))
        refl

  -- The two index lists between a reference order and a controller order undo each other: gathering
  -- values in the reference order and the result back in the controller order gives the values,
  -- whichever they are, if there is one for each joint of the controller.
  pub gather-inverse :
      (reference controller : List String) (ref_from_controller controller_from_ref : List ℕ)
      (values : List F)
      → IsMap reference controller ref_from_controller
      → IsMap controller reference controller_from_ref
      → length values ≡ length controller
      → Ensures (λ w. gather w controller_from_ref ≡ ok values) (gather values ref_from_controller)
  gather-inverse reference controller rc cr values v w sized =
      Ensures-weaken
        (gather-points values rc (subst (λ n. All (λ i. i < n) rc) (sym sized) v.bounded))
        λ out points. gather-eq out cr values (omega (arith, w.size)) λ k i a hi ha.
          let (n, hn) = get_elem?-lt_some controller k (omega (arith, get_elem?-lt values k ha)) in
          let hr = w.names k i hi ∙ hn in
          let (j, hj) =
            get_elem?-lt_some rc i (omega (arith, v.size, get_elem?-lt reference i hr)) in
          let same = v.unique n j k (v.names i j hj ∙ hr) hn in
          points i j hj ∙ ap (get_elem? values) same ∙ ha
