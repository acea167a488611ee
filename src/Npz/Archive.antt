-- ===== src/Npz/Archive.antt =====
-- The members of an NPZ file: g1_sim2real/src/npz_reader.cpp, `NpzArchive` and `inflate_raw`, from the
-- bytes of the file. zlib's `crc32` and `inflate` are parameters.
use grit_deploy_onboard_g.Prelude.{
  ℕ, zero, suc, ◌+◌, ◌-◌, ◌%◌, ◌^◌, Bool, not, ◌&&◌, ◌||◌, Option, none, some, List, [], ◌∷◌, ◌++◌,
  length, take, drop, ltb, ◌==◌, is_some, if◌then◌else◌, Result, ok, ◌>>=◌, ◌>>◌, require, throw,
  slice,
}
use grit_deploy_onboard_g.Wire.{list_eq, crc32_of}
use grit_deploy_onboard_g.Npz.{Text, NpyArray, read_u16_le, read_u32_le, require_range}
use grit_deploy_onboard_g.Npz.Header.{found, parse_npy}

-- `arrays_`, each name once.
abbrev pub Arrays : Type 0
Arrays = List (Text × NpyArray)

-- An entry of the central directory.
pub record Entry : Type 0 where
  pub method : ℕ
  pub expected_crc : ℕ
  pub compressed_size : ℕ
  pub uncompressed_size : ℕ
  pub local_offset : ℕ
  pub name : Text

unfoldable pub find_array : Arrays → Text → Option NpyArray
find_array [] name = none
find_array ((key, array) ∷ arrays) name =
    let rest = find_array arrays name in if list_eq key name then some array else rest

unfoldable pub contains : Arrays → Text → Bool
contains arrays name = is_some (find_array arrays name)

unfoldable pub at_name : Arrays → Text → Result NpyArray
at_name arrays name = found (find_array arrays name) "NPZ required field is missing"

-- `std::unordered_map::emplace` keeps a value that is there.
unfoldable pub emplace : Arrays → Text → NpyArray → Arrays
emplace arrays name array = if contains arrays name then arrays else arrays ++ (name, array) ∷ []

abbrev pub min_eocd : ℕ
min_eocd = 22

abbrev pub eocd_signature : ℕ
eocd_signature = 101010256

abbrev pub central_signature : ℕ
central_signature = 33639248

abbrev pub local_signature : ℕ
local_signature = 67324752

-- The search for the end record, from position `start + n - 1` down to `start`.
unfoldable pub find_eocd : List ℕ → ℕ → ℕ → Result (Option ℕ)
find_eocd file start zero = ok none
find_eocd file start (suc n) = do
  let rest = find_eocd file start n
  signature ← read_u32_le file (start + n)
  if signature == eocd_signature then ok (some (start + n)) else rest

-- The entry at the cursor, and the cursor of the next.
unfoldable pub read_entry : List ℕ → ℕ → Result (Entry × ℕ)
read_entry file cursor = do
  require_range cursor 46 (length file)
  signature ← read_u32_le file cursor
  require (signature == central_signature) "Invalid NPZ central-directory signature"
  method ← read_u16_le file (cursor + 10)
  expected_crc ← read_u32_le file (cursor + 16)
  compressed_size ← read_u32_le file (cursor + 20)
  uncompressed_size ← read_u32_le file (cursor + 24)
  name_size ← read_u16_le file (cursor + 28)
  extra_size ← read_u16_le file (cursor + 30)
  comment_size ← read_u16_le file (cursor + 32)
  local_offset ← read_u32_le file (cursor + 42)
  require_range (cursor + 46) name_size (length file)
  name ← slice file (cursor + 46) name_size
  let entry : Entry = record {
    method = method;
    expected_crc = expected_crc;
    compressed_size = compressed_size;
    uncompressed_size = uncompressed_size;
    local_offset = local_offset;
    name = name;
  }
  ok (entry, (cursor + (46 + name_size + extra_size + comment_size)) % 2 ^ 64)

-- `.npy` at the end of a member's name is left out.
unfoldable pub member_name : Text → Text
member_name name =
    let stem = length name - 4 in
    if ltb 4 (length name) && list_eq (drop stem name) (46 ∷ 110 ∷ 112 ∷ 121 ∷ [])
    then take stem name
    else name

-- `inflate` gives the output of a stream that ends, with room for so many bytes.
module _ (crc32 : ℕ → List ℕ → ℕ) (inflate : List ℕ → ℕ → Option (List ℕ)) where
  unfoldable pub inflate_raw : List ℕ → ℕ → Result (List ℕ)
  inflate_raw compressed uncompressed_size = do
    require (not (ltb (2 ^ 32 - 1) (length compressed) || ltb (2 ^ 32 - 1) uncompressed_size))
        "NPZ member is too large for zlib"
    output ← found (inflate compressed uncompressed_size) "Failed to decompress NPZ member"
    require (length output == uncompressed_size) "Failed to decompress NPZ member"
    ok output

  unfoldable pub read_member : List ℕ → Entry → Result (List ℕ)
  read_member file entry = do
    require_range entry.local_offset 30 (length file)
    signature ← read_u32_le file entry.local_offset
    require (signature == local_signature) "Invalid NPZ local-entry signature"
    local_name_size ← read_u16_le file (entry.local_offset + 26)
    local_extra_size ← read_u16_le file (entry.local_offset + 28)
    let data_offset = entry.local_offset + 30 + local_name_size + local_extra_size
    require_range data_offset entry.compressed_size (length file)
    content ← slice file data_offset entry.compressed_size
    if entry.method == 0
        then ok content
        else if entry.method == 8
        then inflate_raw content entry.uncompressed_size
        else throw "Unsupported NPZ compression method"

  unfoldable pub read_npy : List ℕ → Entry → Result NpyArray
  read_npy file entry = do
    npy ← read_member file entry
    require (crc32_of crc32 0 npy (length npy) % 2 ^ 32 == entry.expected_crc) "NPZ CRC mismatch"
    parse_npy npy

  -- The loop over `entry_count` entries.
  unfoldable pub read_entries : List ℕ → ℕ → ℕ → Arrays → Result Arrays
  read_entries file zero cursor arrays = ok arrays
  read_entries file (suc n) cursor arrays = do
    (entry, next) ← read_entry file cursor
    array ← read_npy file entry
    read_entries file n next (emplace arrays (member_name entry.name) array)

  -- The constructor, after `read_file`.
  unfoldable pub open_archive : List ℕ → Result Arrays
  open_archive file = do
    require (not (ltb (length file) min_eocd)) "NPZ file is too short"
    let search_start = length file - 65557
    place ← find_eocd file search_start (length file - min_eocd + 1 - search_start)
    eocd ← found place "NPZ end-of-central-directory record not found"
    require_range eocd min_eocd (length file)
    entry_count ← read_u16_le file (eocd + 10)
    cursor ← read_u32_le file (eocd + 16)
    read_entries file entry_count cursor []
