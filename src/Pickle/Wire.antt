-- ===== src/Pickle/Wire.antt =====
-- A pickle sent as bytes: data() and size() on one side, the constructor from bytes on the other.
use gitrpc.Prelude.{
  ℕ, ◌+◌, ◌-◌, ◌%◌, ◌^◌, ◌≤◌, ◌<◌, ◌≡◌, refl, sym, ◌⊎◌, inl, inr, false, none, some, List, [], ◌++◌,
  append_assoc, append-nil, arith, ◌==◌, length, take, length-append, take-append, drop-append,
  take_all, All, Bool-cases,
}
use gitrpc.Pickle.Words.{
  uint32_mod, align_int, le_bytes, le_value, length-le_bytes, le_value-le_bytes, IsByte,
  le_value-take,
}
use gitrpc.Pickle.Writer.{
  Block, Pickle, deduced_header_size, from_data, data_bytes, find_next, capacity_read_only,
}
use gitrpc.Pickle.Growth.{Holds, block_of}

-- The header size that a new pickle has: the size field and the user's part.
abbrev pub HasExtra : Pickle → List ℕ → Type 0
HasExtra p extra = (p.header_size ≡ 4 + length extra) × (length extra % 4 ≡ 0)

data_bytes_lem :
    (p : Pickle) (extra contents : List ℕ)
    → Holds p extra contents
    → HasExtra p extra
    → data_bytes p ≡ le_bytes 4 (length contents) ++ (extra ++ contents)
unfolding data_bytes
data_bytes_lem p extra contents v h =
    rw (v.block, h.0)
      (take_all _ (le_bytes 4 (length contents) ++ (extra ++ contents)) (
        omega (
          arith,
          length-append (le_bytes 4 (length contents)) (extra ++ contents),
          length-append extra contents,
          length-le_bytes 4 (length contents),
        )))

wire_length :
    (extra contents : List ℕ)
    → length (le_bytes 4 (length contents) ++ (extra ++ contents))
      ≡ 4 + length extra + length contents
wire_length extra contents = omega (
  arith,
  length-append (le_bytes 4 (length contents)) (extra ++ contents),
  length-append extra contents,
  length-le_bytes 4 (length contents),
)

wire_declared :
    (extra contents rest : List ℕ)
    → length contents < uint32_mod
    → le_value (take 4 ((le_bytes 4 (length contents) ++ (extra ++ contents)) ++ rest))
      ≡ length contents
wire_declared extra contents rest small =
    rw
      (
        append_assoc (le_bytes 4 (length contents)) (extra ++ contents) rest,
        take-append 4 (le_bytes 4 (length contents)) ((extra ++ contents) ++ rest)
            (length-le_bytes 4 (length contents)),
      )
      (le_value-le_bytes 4 (length contents) (omega arith))

-- The header size is deduced right from the bytes of a pickle below 2 GB.
deduced :
    (extra contents : List ℕ)
    → length extra % 4 ≡ 0
    → 4 + length extra + length contents < 2 ^ 31
    → deduced_header_size (le_bytes 4 (length contents) ++ (extra ++ contents)) ≡ 4 + length extra
unfolding deduced_header_size align_int
deduced extra contents aligned small =
    let declared = rw append-nil at (wire_declared extra contents [] (omega arith)) in
    rw (wire_length extra contents, declared) (ground arith)

-- The bytes of a pickle below 2 GB in all, whose writes a `Holds` describes and whose user part of the
-- header has the bytes that header_size leaves for it, given to the constructor from bytes, make a
-- read-only pickle with the same header and payload.
pub from_data-data_bytes :
    (p : Pickle) (extra contents : List ℕ)
    → Holds p extra contents
    → HasExtra p extra
    → 4 + length extra + length contents < 2 ^ 31
    → from_data (data_bytes p) ≡ record {
      header = some (block_of extra contents);
      header_size = p.header_size;
      capacity_after_header = capacity_read_only;
      write_offset = 0;
    }
unfolding from_data
from_data-data_bytes p extra contents v h small =
    let declared = rw append-nil at (wire_declared extra contents [] (omega arith)) in
    let size : ((4 + length extra) == 0) ≡ false = ground arith in
    let rest : (4 + length extra - 4) ≡ length extra = omega arith in
    let header : length (le_bytes 4 (length contents) ++ extra) ≡ 4 + length extra = omega (
      arith,
      length-append (le_bytes 4 (length contents)) extra,
      length-le_bytes 4 (length contents),
    ) in
    rw (
      data_bytes_lem p extra contents v h,
      deduced extra contents h.1 small,
      h.0,
      declared,
      size,
      rest,
      drop-append 4 (le_bytes 4 (length contents)) (extra ++ contents)
          (length-le_bytes 4 (length contents)),
      take-append (length extra) extra contents refl,
      sym (append_assoc (le_bytes 4 (length contents)) extra contents),
      drop-append (4 + length extra) (le_bytes 4 (length contents) ++ extra) contents header,
    )

-- FindNext finds the end of a pickle that other bytes follow, if the payload is below 4 GB and the user
-- part of the header has the bytes that header_size leaves for it.
find_next-data_bytes :
    (p : Pickle) (extra contents rest : List ℕ)
    → Holds p extra contents
    → HasExtra p extra
    → length contents < uint32_mod
    → find_next p.header_size (data_bytes p ++ rest) ≡ some (length (data_bytes p))
unfolding find_next
find_next-data_bytes p extra contents rest v h small =
    let whole = length-append (le_bytes 4 (length contents) ++ (extra ++ contents)) rest in
    rw
      (
        data_bytes_lem p extra contents v h,
        wire_declared extra contents rest small,
        h.0,
        whole,
        wire_length extra contents,
      )
      (ground arith)

-- FindNext never points behind the range it was given.
find_next-le :
    (header_size n : ℕ) (bytes : List ℕ)
    → find_next header_size bytes ≡ some n
    → (n ≤ length bytes) × (n ≡ header_size + le_value (take 4 bytes))
unfolding find_next
find_next-le header_size n bytes e = ground arith

deduced_exact :
    (bytes : List ℕ)
    → length bytes < 2 ^ 31
    → le_value (take 4 bytes) < uint32_mod
    → (deduced_header_size bytes == 0) ≡ false
    → (deduced_header_size bytes + le_value (take 4 bytes) ≡ length bytes)
      × (deduced_header_size bytes % 4 ≡ 0)
      × (4 ≤ deduced_header_size bytes)
unfolding deduced_header_size align_int
deduced_exact bytes small declared full = ground arith

-- From any bytes below 2 GB the constructor makes a pickle with no header, or one whose header is aligned and
-- whose header and payload together are exactly the bytes given.
from_data_exact :
    (bytes : List ℕ)
    → All IsByte bytes
    → length bytes < 2 ^ 31
    → ((from_data bytes).header ≡ none)
      ⊎ ((b : Block) × ((from_data bytes).header ≡ some b)
          × ((from_data bytes).header_size + b.payload_size ≡ length bytes)
          × ((from_data bytes).header_size % 4 ≡ 0)
          × (4 ≤ (from_data bytes).header_size))
unfolding from_data
from_data_exact bytes h small = elim (Bool-cases (deduced_header_size bytes == 0)) [
  | inl empty ↦ rw empty (inl refl)
  | inr full ↦
      let e = deduced_exact bytes small (le_value-take 4 bytes h) full in
      rw full (inr (_, refl, e.0, e.1, e.2))
]
