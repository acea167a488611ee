-- ===== src/Npz/Reading.antt =====
-- The accesses of the NPZ reader (g1_sim2real/src/npz_reader.cpp) to the bytes of its file.
use Prim.Native.String.{String}
use grit_deploy_onboard_g.Prelude.{
  ℕ, zero, suc, ◌+◌, ◌-◌, ◌≤◌, ◌≡◌, refl, arith, Option, none, some, List, [], ◌∷◌, length, ◌==◌,
  Ensures, returned, thrown, Ensures-bind, Ensures-require, Ensures-if, Ensures-weaken, Ensures-at,
  Ensures-slice,
}
use grit_deploy_onboard_g.Geometry.Totality.{Always}
use grit_deploy_onboard_g.Npz.{Text, read_u16_le, read_u32_le, require_range}
use grit_deploy_onboard_g.Npz.Header.{
  found, magnitude, stoull, remove_spaces, parse_tokens, parse_shape, split_commas, header_range,
  parse_npy, find_descr, find_fortran, find_shape,
}
use grit_deploy_onboard_g.Npz.Archive.{
  Arrays, Entry, find_eocd, read_entry, inflate_raw, read_member, read_npy, read_entries,
  open_archive, min_eocd, eocd_signature, emplace, member_name,
}

read_u16_le-Always : (p : List ℕ) (i : ℕ) → i + 2 ≤ length p → Always (read_u16_le p i)
unfolding read_u16_le
read_u16_le-Always p i h =
    Ensures-bind (Ensures-at p i (omega arith))
      λ _ _. Ensures-bind (Ensures-at p (i + 1) (omega arith)) λ _ _. returned tt

read_u32_le-Always : (p : List ℕ) (i : ℕ) → i + 4 ≤ length p → Always (read_u32_le p i)
unfolding read_u32_le
read_u32_le-Always p i h = Ensures-bind (Ensures-at p i (omega arith)) λ _ _.
    Ensures-bind (Ensures-at p (i + 1) (omega arith)) λ _ _.
      Ensures-bind (Ensures-at p (i + 2) (omega arith))
        λ _ _. Ensures-bind (Ensures-at p (i + 3) (omega arith)) λ _ _. returned tt

require_range-Ensures :
    (offset size total : ℕ) → Ensures (λ _. offset + size ≤ total) (require_range offset size total)
unfolding require_range
require_range-Ensures offset size total = Ensures-weaken (Ensures-require _ _) λ _ h. ground arith

pub found-Ensures {ℓ} :
    {A : Type ℓ} (o : Option A) (message : String) → Ensures (λ a. o ≡ some a) (found o message)
found-Ensures none message = thrown
found-Ensures (some a) message = returned refl

magnitude-Always : (cs : Text) → Always (magnitude cs)
unfolding magnitude
magnitude-Always cs =
    Ensures-bind (Ensures-require _ _) λ _ _. Ensures-bind (Ensures-require _ _) λ _ _. returned tt

stoull-Always : (cs : Text) → Always (stoull cs)
unfolding stoull
stoull-Always [] = thrown
stoull-Always (c ∷ cs) =
    Ensures-if (c == 45) (Ensures-bind (magnitude-Always cs) λ _ _. returned tt)
      (Ensures-if (c == 43) (magnitude-Always cs) (magnitude-Always (c ∷ cs)))

parse_tokens-Always : (tokens : List Text) → Always (parse_tokens tokens)
unfolding parse_tokens
parse_tokens-Always [] = returned tt
parse_tokens-Always (token ∷ tokens) =
    let rest = parse_tokens-Always tokens in
    Ensures-if (length (remove_spaces token) == 0) rest (
      Ensures-bind (stoull-Always (remove_spaces token))
        λ _ _. Ensures-bind rest λ _ _. returned tt)

header_range-Always :
    (bytes : List ℕ) (major : ℕ) → 10 ≤ length bytes → Always (header_range bytes major)
unfolding header_range
header_range-Always bytes major h =
    Ensures-if (major == 1)
      (Ensures-bind (read_u16_le-Always bytes 8 (omega arith)) λ _ _. returned tt)
      (Ensures-if _
        (Ensures-bind (require_range-Ensures 0 12 (length bytes))
          λ _ long. Ensures-bind (read_u32_le-Always bytes 8 (omega arith)) λ _ _. returned tt)
        thrown)

parse_npy-Always : (bytes : List ℕ) → Always (parse_npy bytes)
unfolding parse_npy parse_shape
parse_npy-Always bytes = Ensures-bind (Ensures-require _ _) λ _ long.
    let enough : 10 ≤ length bytes = ground arith in
    Ensures-bind (Ensures-at bytes 6 (omega arith)) λ major _.
      Ensures-bind (header_range-Always bytes major enough) λ range _.
        Ensures-bind (require_range-Ensures range.0 range.1 (length bytes)) λ _ inside.
          Ensures-bind (Ensures-slice bytes range.0 range.1 inside) λ header _.
            Ensures-bind (found-Ensures (find_descr header) _) λ _ _.
              Ensures-bind (found-Ensures (find_fortran header) _) λ _ _.
                Ensures-bind (found-Ensures (find_shape header) _) λ text _.
                  Ensures-bind (parse_tokens-Always (split_commas text)) λ _ _. returned tt

find_eocd-Always :
    (file : List ℕ) (start n : ℕ) → start + n + 3 ≤ length file → Always (find_eocd file start n)
unfolding find_eocd
find_eocd-Always file start zero h = returned tt
find_eocd-Always file start (suc n) h =
    Ensures-bind (read_u32_le-Always file (start + n) (omega arith)) λ signature _.
      Ensures-if (signature == eocd_signature) (returned tt)
        (find_eocd-Always file start n (omega arith))

read_entry-Always : (file : List ℕ) (cursor : ℕ) → Always (read_entry file cursor)
unfolding read_entry
read_entry-Always file cursor =
    Ensures-bind (require_range-Ensures cursor 46 (length file)) λ _ inside.
      Ensures-bind (read_u32_le-Always file cursor (omega arith)) λ _ _.
        Ensures-bind (Ensures-require _ _) λ _ _.
          Ensures-bind (read_u16_le-Always file (cursor + 10) (omega arith)) λ _ _.
            Ensures-bind (read_u32_le-Always file (cursor + 16) (omega arith)) λ _ _.
              Ensures-bind (read_u32_le-Always file (cursor + 20) (omega arith)) λ _ _.
                Ensures-bind (read_u32_le-Always file (cursor + 24) (omega arith)) λ _ _.
                  Ensures-bind (read_u16_le-Always file (cursor + 28) (omega arith)) λ size _.
                    Ensures-bind (read_u16_le-Always file (cursor + 30) (omega arith)) λ _ _.
                      Ensures-bind (read_u16_le-Always file (cursor + 32) (omega arith)) λ _ _.
                        Ensures-bind (read_u32_le-Always file (cursor + 42) (omega arith)) λ _ _.
                          Ensures-bind (require_range-Ensures (cursor + 46) size (length file))
                            λ _ named.
                              Ensures-bind (Ensures-slice file (cursor + 46) size named)
                                λ _ _. returned tt

module _ (crc32 : ℕ → List ℕ → ℕ) (inflate : List ℕ → ℕ → Option (List ℕ)) where
  inflate_raw-Always :
      (compressed : List ℕ) (size : ℕ) → Always (inflate_raw crc32 inflate compressed size)
  unfolding inflate_raw
  inflate_raw-Always compressed size = Ensures-bind (Ensures-require _ _) λ _ _.
      Ensures-bind (found-Ensures (inflate compressed size) _)
        λ _ _. Ensures-bind (Ensures-require _ _) λ _ _. returned tt

  read_member-Always :
      (file : List ℕ) (entry : Entry) → Always (read_member crc32 inflate file entry)
  unfolding read_member
  read_member-Always file entry =
      Ensures-bind (require_range-Ensures entry.local_offset 30 (length file)) λ _ inside.
        Ensures-bind (read_u32_le-Always file entry.local_offset (omega arith)) λ _ _.
          Ensures-bind (Ensures-require _ _) λ _ _.
            Ensures-bind (read_u16_le-Always file (entry.local_offset + 26) (omega arith)) λ m _.
              Ensures-bind (read_u16_le-Always file (entry.local_offset + 28) (omega arith)) λ n _.
                Ensures-bind
                  (require_range-Ensures (entry.local_offset + 30 + m + n) entry.compressed_size
                    (length file))
                  λ _ held.
                    Ensures-bind
                      (Ensures-slice file (entry.local_offset + 30 + m + n) entry.compressed_size
                        held)
                      λ content _. Ensures-if (entry.method == 0) (returned tt) (
                        Ensures-if (entry.method == 8)
                          (inflate_raw-Always content entry.uncompressed_size) thrown)

  read_npy-Always : (file : List ℕ) (entry : Entry) → Always (read_npy crc32 inflate file entry)
  unfolding read_npy
  read_npy-Always file entry =
      Ensures-bind (read_member-Always file entry)
        λ npy _. Ensures-bind (Ensures-require _ _) λ _ _. parse_npy-Always npy

  read_entries-Always :
      (file : List ℕ) (n cursor : ℕ) (arrays : Arrays)
      → Always (read_entries crc32 inflate file n cursor arrays)
  unfolding read_entries
  read_entries-Always file zero cursor arrays = returned tt
  read_entries-Always file (suc n) cursor arrays =
      Ensures-bind (read_entry-Always file cursor) λ (entry, next) _.
        Ensures-bind (read_npy-Always file entry)
          λ array _. read_entries-Always file n next (emplace arrays (member_name entry.name) array)

  -- Whatever bytes an NPZ file holds, opening it ends, with no access outside the file: the arrays are
  -- there, or an exception is thrown. It is so for any results of zlib's `crc32` and `inflate`.
  pub open_archive-Always : (file : List ℕ) → Always (open_archive crc32 inflate file)
  unfolding open_archive
  open_archive-Always file = Ensures-bind (Ensures-require _ _) λ _ long.
      let enough : min_eocd ≤ length file = ground arith in
      Ensures-bind (find_eocd-Always file (length file - 65557) _ (omega arith)) λ place _.
        Ensures-bind (found-Ensures place _) λ eocd _.
          Ensures-bind (require_range-Ensures eocd min_eocd (length file)) λ _ inside.
            Ensures-bind (read_u16_le-Always file (eocd + 10) (omega arith)) λ n _.
              Ensures-bind (read_u32_le-Always file (eocd + 16) (omega arith))
                λ cursor _. read_entries-Always file n cursor []
