-- ===== src/Prelude/Results.antt =====
-- Exceptions as values. `std::runtime_error` carries its message; `out_of_bounds` stands for a read
-- past the end of a buffer, which C++ leaves undefined and no caller can catch, and `diverged` for a
-- loop that has used up the fuel of its model.
use Prim.Native.String.{String}
use mathlib.Core.Path.{◌≡◌, refl, ap, ap₂, subst}
use mathlib.Core.Bool.{Bool, true, false}
use mathlib.Core.List.{List, [], ◌∷◌, map}
use mathlib.Core.Option.{Option, none, some}
use native.Mathlib.Omega.{arith}
use grit_deploy_onboard_g.Prelude.Lists.{
  length, get_elem?, take, drop, length-take, length-drop, get_elem?-lt_some,
}
use grit_deploy_onboard_g.Prelude.Predicates.{All}
use grit_deploy_onboard_g.Prelude.Tests.{leb, le→leb, if◌then◌else◌}
use Prim.Native.Nat.{ℕ, suc, ◌+◌, ◌<◌, ◌≤◌}

pub data Error : Type 0 where
  out_of_bounds diverged : Error
  runtime_error : String → Error

pub data Result {ℓ} (A : Type ℓ) : Type ℓ where
  ok : A → Result A
  err : Error → Result A

infixl 5 ◌>>=◌
abbrev pub ◌>>=◌ {ℓ κ} : {A : Type ℓ} {B : Type κ} → Result A → (A → Result B) → Result B
err exception >>= rest = err exception
ok value >>= rest = rest value

-- A call for its exception alone, then the rest.
infixl 5 ◌>>◌
abbrev pub ◌>>◌ {ℓ} : {B : Type ℓ} → Result (Unit {0}) → Result B → Result B
check >> rest = check >>= λ _. rest

-- `if (!test) throw std::runtime_error(message);`
unfoldable pub require : Bool → String → Result (Unit {0})
require true message = ok tt
require false message = err (runtime_error message)

abbrev pub throw {ℓ} : {A : Type ℓ} → String → Result A
throw message = err (runtime_error message)

-- `catch (const std::exception &)`: the value `a` instead.
abbrev pub catch {ℓ} : {A : Type ℓ} → A → Result A → Result A
catch a (err (runtime_error m)) = ok a
catch a (ok b) = ok b
catch a (err out_of_bounds) = err out_of_bounds
catch a (err diverged) = err diverged

-- `xs[i]`, and the `n` elements of `xs` from index `i` on; both only within the list.
abbrev pub from_option {ℓ} : {A : Type ℓ} → Option A → Result A
from_option none = err out_of_bounds
from_option (some a) = ok a

unfoldable pub at {ℓ} : {A : Type ℓ} → List A → ℕ → Result A
at xs i = from_option (get_elem? xs i)

unfoldable pub slice {ℓ} : {A : Type ℓ} → List A → ℕ → ℕ → Result (List A)
slice xs i n = if leb (i + n) (length xs) then ok (take n (drop i xs)) else err out_of_bounds

-- A loop that computes one element of its result in each round.
unfoldable pub map_m {ℓ κ} : {A : Type ℓ} {B : Type κ} → (A → Result B) → List A → Result (List B)
map_m f [] = ok []
map_m f (x ∷ xs) = do y ← f x; ys ← map_m f xs; ok (y ∷ ys)

-- Where a sequence of two calls returns, the first call returned.
pub >>=-eq-ok {ℓ κ} :
    {A : Type ℓ} {B : Type κ} {result : B} (call : Result A) (rest : A → Result B)
    → (call >>= rest) ≡ ok result
    → (value : A) × (call ≡ ok value) × (rest value ≡ ok result)
>>=-eq-ok (err exception) rest e = cc
>>=-eq-ok (ok value) rest e = (value, refl, e)

pub require-eq-ok : (b : Bool) (m : String) {u : Unit {0}} → require b m ≡ ok u → b ≡ true
unfolding require
require-eq-ok true m h = refl
require-eq-ok false m h = cc

pub ok-injective {ℓ} : {A : Type ℓ} {a b : A} → ok a ≡ ok b → a ≡ b
ok-injective e = cc

-- What a call guarantees: a value with the property, or an exception that can be caught.
pub data Ensures {ℓ κ} {A : Type ℓ} (P : A → Type κ) : Result A → Type (ℓ ⊔ κ) where
  returned : {a : A} → P a → Ensures P (ok a)
  thrown : {m : String} → Ensures P (err (runtime_error m))

pub Ensures-bind {ℓ κ μ ν} :
    {A : Type ℓ} {B : Type κ} {P : A → Type μ} {Q : B → Type ν} {m : Result A} {f : A → Result B}
    → Ensures P m
    → ((a : A) → P a → Ensures Q (f a))
    → Ensures Q (m >>= f)
Ensures-bind (returned p) h = h _ p
Ensures-bind thrown h = thrown

pub Ensures-require : (b : Bool) (m : String) → Ensures (λ _. b ≡ true) (require b m)
unfolding require
Ensures-require true m = returned refl
Ensures-require false m = thrown

pub Ensures-if {ℓ κ} :
    {A : Type ℓ} {P : A → Type κ} (b : Bool) {m n : Result A}
    → Ensures P m
    → Ensures P n
    → Ensures P (if b then m else n)
Ensures-if true p q = p
Ensures-if false p q = q

-- The branches with what the test says.
pub Ensures-split {ℓ κ} :
    {A : Type ℓ} {P : A → Type κ} (b : Bool) {m n : Result A}
    → (b ≡ true → Ensures P m)
    → (b ≡ false → Ensures P n)
    → Ensures P (if b then m else n)
Ensures-split true p q = p refl
Ensures-split false p q = q refl

pub Ensures-weaken {ℓ κ μ} :
    {A : Type ℓ} {P : A → Type κ} {Q : A → Type μ} {m : Result A}
    → Ensures P m
    → ((a : A) → P a → Q a)
    → Ensures Q m
Ensures-weaken (returned p) h = returned (h _ p)
Ensures-weaken thrown h = thrown

-- What is guaranteed of the value and of the value that stands in for an exception, after a catch.
pub data Returns {ℓ κ} {A : Type ℓ} (P : A → Type κ) : Result A → Type (ℓ ⊔ κ) where
  returns : {a : A} → P a → Returns P (ok a)

pub Returns-ok {ℓ κ} :
    {A : Type ℓ} {P : A → Type κ} {m : Result A} {a : A} → Returns P m → m ≡ ok a → P a
Returns-ok {P = P} (returns p) e = subst P (ok-injective e) p

pub catch-Returns {ℓ κ} :
    {A : Type ℓ} {P : A → Type κ} {m : Result A} (a : A) → P a → Ensures P m → Returns P (catch a m)
catch-Returns a p (returned q) = returns q
catch-Returns a p thrown = returns p

-- The value of a guaranteed call has the property.
pub Ensures-ok {ℓ κ} :
    {A : Type ℓ} {P : A → Type κ} {m : Result A} {a : A} → Ensures P m → m ≡ ok a → P a
Ensures-ok {P = P} (returned p) e = subst P (ok-injective e) p
Ensures-ok thrown e = cc

-- The value is the one that the call returns.
pub Ensures-self {ℓ κ} :
    {A : Type ℓ} {P : A → Type κ} {m : Result A} → Ensures P m → Ensures (λ a. P a × (m ≡ ok a)) m
Ensures-self (returned p) = returned (p, refl)
Ensures-self thrown = thrown

pub Ensures-at {ℓ} :
    {A : Type ℓ} (xs : List A) (i : ℕ)
    → i < length xs
    → Ensures (λ a. get_elem? xs i ≡ some a) (at xs i)
unfolding at
Ensures-at xs i h = let (a, e) = get_elem?-lt_some xs i h in rw e (returned refl)

pub Ensures-slice {ℓ} :
    {A : Type ℓ} (xs : List A) (i n : ℕ)
    → i + n ≤ length xs
    → Ensures (λ ys. (ys ≡ take n (drop i xs)) × (length ys ≡ n)) (slice xs i n)
unfolding slice
Ensures-slice xs i n h =
    rw (le→leb _ _ h) (returned (refl, omega (arith, length-take n (drop i xs), length-drop i xs)))

pub Ensures-map_m {ℓ κ μ ν} :
    {A : Type ℓ} {B : Type κ} (P : A → Type μ) (Q : B → Type ν) (f : A → Result B) (xs : List A)
    → ((x : A) → P x → Ensures Q (f x))
    → All P xs
    → Ensures (λ ys. All Q ys × (length ys ≡ length xs)) (map_m f xs)
unfolding map_m
Ensures-map_m P Q f [] h all = returned (tt, refl)
Ensures-map_m P Q f (x ∷ xs) h (p, all) =
    Ensures-bind (h x p)
      λ y q. Ensures-bind (Ensures-map_m P Q f xs h all) λ ys r. returned ((q, r.0), ap suc r.1)

-- Two properties of one call.
pub Ensures-both {ℓ κ μ} :
    {A : Type ℓ} {P : A → Type κ} {Q : A → Type μ} {m : Result A}
    → Ensures P m
    → Ensures Q m
    → Ensures (λ a. P a × Q a) m
Ensures-both (returned p) (returned q) = returned (p, q)
Ensures-both thrown q = thrown

-- A part of each result, where it is a function of the element.
pub map_m-eq {ℓ κ μ ν} :
    {A : Type ℓ} {B : Type κ} {C : Type μ} (P : A → Type ν) (part : B → C) (g : A → C)
    (f : A → Result B) (xs : List A)
    → ((x : A) → P x → Ensures (λ y. part y ≡ g x) (f x))
    → All P xs
    → Ensures (λ ys. map part ys ≡ map g xs) (map_m f xs)
unfolding map_m
map_m-eq P part g f [] h all = returned refl
map_m-eq P part g f (x ∷ xs) h (p, all) =
    Ensures-bind (h x p)
      λ y q. Ensures-bind (map_m-eq P part g f xs h all) λ ys r. returned (ap₂ (λ z zs. z ∷ zs) q r)
