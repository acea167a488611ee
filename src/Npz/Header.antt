-- ===== src/Npz/Header.antt =====
-- The header of an NPY array: g1_sim2real/src/npz_reader.cpp, `parse_shape` and `parse_npy`. Its three
-- regular expressions need no backtracking and are written out as functions.
use Prim.Native.String.{String}
use grit_deploy_onboard_g.Prelude.{
  ℕ, ◌+◌, ◌*◌, ◌-◌, ◌%◌, ◌^◌, Bool, true, false, not, ◌&&◌, ◌||◌, Option, none, some, List, [], ◌∷◌,
  length, take, drop, ltb, leb, ◌==◌, if◌then◌else◌, Result, ok, ◌>>=◌, ◌>>◌, require, throw, at,
  slice,
}
use grit_deploy_onboard_g.Wire.{list_eq}
use grit_deploy_onboard_g.Npz.{Text, NpyArray, read_u16_le, read_u32_le, require_range}

-- `std::isspace` in the C locale, and `\s`.
abbrev pub is_space : ℕ → Bool
is_space c = (c == 32) || (leb 9 c && leb c 13)

abbrev pub is_quote : ℕ → Bool
is_quote c = (c == 39) || (c == 34)

abbrev pub is_digit : ℕ → Bool
is_digit c = leb 48 c && leb c 57

-- The pieces of a pattern: what they take and what is left.
abbrev pub skip_spaces : Text → Text
skip_spaces [] = []
skip_spaces (c ∷ cs) = let rest = skip_spaces cs in if is_space c then rest else c ∷ cs

abbrev pub expect : (ℕ → Bool) → Text → Option Text
expect p [] = none
expect p (c ∷ cs) = if p c then some cs else none

abbrev pub expect_text : Text → Text → Option Text
expect_text [] cs = some cs
expect_text (w ∷ ws) [] = none
expect_text (w ∷ ws) (c ∷ cs) = let rest = expect_text ws cs in if w == c then rest else none

-- The longest run without a character of `stop`.
abbrev pub run_until : (ℕ → Bool) → Text → Text × Text
run_until stop [] = ([], [])
run_until stop (c ∷ cs) =
    let rest = run_until stop cs in if stop c then ([], c ∷ cs) else (c ∷ rest.0, rest.1)

infixl 5 ◌then_try◌
abbrev pub ◌then_try◌ {ℓ κ} : {A : Type ℓ} {B : Type κ} → Option A → (A → Option B) → Option B
none then_try rest = none
some a then_try rest = rest a

-- `['"]key['"]\s*:\s*`.
unfoldable pub match_key : Text → Text → Option Text
match_key key cs =
    expect is_quote cs
    then_try (λ cs. expect_text key cs)
    then_try (λ cs. expect is_quote cs)
    then_try (λ cs. expect (λ c. c == 58) (skip_spaces cs))
    then_try λ cs. some (skip_spaces cs)

-- A quoted text that is not empty: `['"]([^'"]+)['"]`.
unfoldable pub match_quoted : Text → Option Text
match_quoted cs = expect is_quote cs then_try λ cs.
    let (word, rest) = run_until is_quote cs in
    if length word == 0 then none else expect is_quote rest then_try λ _. some word

-- `(True|False)`.
unfoldable pub match_bool : Text → Option Bool
match_bool cs =
    let is_false = expect_text (70 ∷ 97 ∷ 108 ∷ 115 ∷ 101 ∷ []) cs then_try λ _. some false in
    elim (expect_text (84 ∷ 114 ∷ 117 ∷ 101 ∷ []) cs) [ none ↦ is_false | some _ ↦ some true ]

-- `\(([^)]*)\)`.
unfoldable pub match_tuple : Text → Option Text
match_tuple cs = expect (λ c. c == 40) cs then_try λ cs.
    let (dims, rest) = run_until (λ c. c == 41) cs in
    expect (λ c. c == 41) rest then_try λ _. some dims

-- `std::regex_search`: the first place at which the pattern matches.
unfoldable pub regex_search {ℓ} : {A : Type ℓ} → (Text → Option A) → Text → Option A
regex_search pattern [] = pattern []
regex_search pattern (c ∷ cs) =
    let rest = regex_search pattern cs in elim (pattern (c ∷ cs)) [ none ↦ rest | some a ↦ some a ]

-- "descr", "fortran_order" and "shape".
unfoldable pub find_descr : Text → Option Text
find_descr header =
    regex_search
      (λ cs. match_key (100 ∷ 101 ∷ 115 ∷ 99 ∷ 114 ∷ []) cs then_try λ cs. match_quoted cs) header

unfoldable pub find_fortran : Text → Option Bool
find_fortran header =
    regex_search
      (λ cs.
        match_key (102 ∷ 111 ∷ 114 ∷ 116 ∷ 114 ∷ 97 ∷ 110 ∷ 95 ∷ 111 ∷ 114 ∷ 100 ∷ 101 ∷ 114 ∷ [])
          cs
        then_try λ cs. match_bool cs)
      header

unfoldable pub find_shape : Text → Option Text
find_shape header =
    regex_search
      (λ cs. match_key (115 ∷ 104 ∷ 97 ∷ 112 ∷ 101 ∷ []) cs then_try λ cs. match_tuple cs) header

abbrev pub value_of : ℕ → Text → ℕ
value_of n [] = n
value_of n (c ∷ cs) = value_of (n * 10 + (c - 48)) cs

-- The digits in front: none is `std::invalid_argument`, and too many `std::out_of_range`.
unfoldable pub magnitude : Text → Result ℕ
magnitude cs = do
  let digits = (run_until (λ c. not (is_digit c)) cs).0
  require (not (length digits == 0)) "stoull"
  require (ltb (value_of 0 digits) (2 ^ 64)) "stoull"
  ok (value_of 0 digits)

-- `std::stoull` on a text without spaces: a minus sign negates modulo 2^64.
unfoldable pub stoull : Text → Result ℕ
stoull [] = throw "stoull"
stoull (c ∷ cs) =
    let negated = magnitude cs >>= λ m. ok ((2 ^ 64 - m) % 2 ^ 64) in
    if c == 45 then negated else if c == 43 then magnitude cs else magnitude (c ∷ cs)

abbrev pub remove_spaces : Text → Text
remove_spaces [] = []
remove_spaces (c ∷ cs) = let rest = remove_spaces cs in if is_space c then rest else c ∷ rest

abbrev pub push_front : ℕ → List Text → List Text
push_front c [] = (c ∷ []) ∷ []
push_front c (token ∷ tokens) = (c ∷ token) ∷ tokens

-- `std::getline(values, token, ',')` to the end. An empty last token, which it leaves out, is skipped
-- by `parse_shape` anyway.
abbrev pub split_commas : Text → List Text
split_commas [] = [] ∷ []
split_commas (c ∷ cs) =
    let rest = split_commas cs in if c == 44 then [] ∷ rest else push_front c rest

unfoldable pub parse_tokens : List Text → Result (List ℕ)
parse_tokens [] = ok []
parse_tokens (token ∷ tokens) = do
  let rest = parse_tokens tokens
  let word = remove_spaces token
  let dims = stoull word >>= λ dim. rest >>= λ dims. ok (dim ∷ dims)
  if length word == 0 then rest else dims

unfoldable pub parse_shape : Text → Result (List ℕ)
parse_shape text = parse_tokens (split_commas text)

-- "\x93NUMPY".
abbrev pub npy_magic : List ℕ
npy_magic = 147 ∷ 78 ∷ 85 ∷ 77 ∷ 80 ∷ 89 ∷ []

abbrev pub found {ℓ} : {A : Type ℓ} → Option A → String → Result A
found none message = throw message
found (some a) message = ok a

-- Where the header starts and how long it is, by the major version.
unfoldable pub header_range : List ℕ → ℕ → Result (ℕ × ℕ)
header_range bytes major = do
  let short_header = read_u16_le bytes 8 >>= λ size. ok (10, size)
  let long_header =
      require_range 0 12 (length bytes) >>= λ _. read_u32_le bytes 8 >>= λ size. ok (12, size)
  if major == 1
      then short_header
      else if (major == 2) || (major == 3)
      then long_header
      else throw "Unsupported NPY version"

unfoldable pub parse_npy : List ℕ → Result NpyArray
parse_npy bytes = do
  require (not (ltb (length bytes) 10) && list_eq npy_magic (take 6 bytes))
      "NPZ member is not an NPY array"
  major ← at bytes 6
  (offset, size) ← header_range bytes major
  require_range offset size (length bytes)
  header ← slice bytes offset size
  dtype ← found (find_descr header) "NPY descr missing"
  fortran_order ← found (find_fortran header) "NPY fortran_order missing"
  shape_text ← found (find_shape header) "NPY shape missing"
  shape ← parse_shape shape_text
  ok (record {
    dtype = dtype;
    shape = shape;
    bytes = drop (offset + size) bytes;
    fortran_order = fortran_order;
  })
