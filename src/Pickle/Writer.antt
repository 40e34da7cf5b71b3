-- ===== src/Pickle/Writer.antt =====
-- The class Pickle: its buffer, constructors and writers. `none` stands for an access through a
-- NULL header or a copy of a negative number of bytes. The block that `header_` points to is the
-- size field, the user's part of the header and the bytes stored in the payload; the rest of the
-- capacity holds no value yet. Allocation succeeds.
use Prim.Native.Nat.{max}
use mathlib.Core.Option
use gitrpc.Prelude.{
  ℕ, ◌+◌, ◌-◌, ◌*◌, ◌%◌, Bool, true, false, Option, none, some, List, [], ◌∷◌, ◌++◌, ltb, leb, ◌==◌,
  if◌then◌else◌, ◌>>=◌, length, take, drop, replicate,
}
use gitrpc.Pickle.Words.{size_mod, uint32_mod, is_negative, align_int, le_bytes, le_value}

pub record Block : Type 0 where
  pub payload_size : ℕ
  pub extra : List ℕ
  pub payload : List ℕ

pub record Pickle : Type 0 where
  pub header : Option Block
  pub header_size : ℕ
  pub capacity_after_header : ℕ
  pub write_offset : ℕ

-- kPayloadUnit, sizeof(Header) and kCapacityReadOnly.
abbrev pub payload_unit : ℕ
payload_unit = 64

abbrev pub sizeof_header : ℕ
sizeof_header = 4

abbrev pub capacity_read_only : ℕ
capacity_read_only = size_mod - 1

-- realloc: what fits is kept. The size field of a new block is unset, and every caller stores it.
unfoldable pub realloc : Option Block → ℕ → Block
realloc none new_capacity = record { payload_size = 0; extra = []; payload = [] }
realloc (some b) new_capacity = record b { payload = take new_capacity b.payload }

unfoldable pub resize : ℕ → Pickle → Pickle
resize new_capacity p =
    let aligned = align_int new_capacity payload_unit in
    record p { header = some (realloc p.header aligned); capacity_after_header = aligned }

-- Pickle() and Pickle(int header_size), the latter with the bytes that its user part of the
-- header happens to hold.
abbrev pub unallocated : ℕ → Pickle
unallocated size = record {
  header = none;
  header_size = size;
  capacity_after_header = 0;
  write_offset = 0;
}

unfoldable pub new_with_header : ℕ → List ℕ → Pickle
new_with_header header_size extra =
    record (resize payload_unit (unallocated (align_int header_size 4))) {
      header = some (record { payload_size = 0; extra = extra; payload = [] });
    }

unfoldable pub new : Pickle
new = record (resize payload_unit (unallocated sizeof_header)) {
  header = some (record { payload_size = 0; extra = []; payload = [] });
}

-- The memcpy and memset of WriteBytesCommon at `offset`, over `data_len` bytes.
abbrev pub write_at : ℕ → List ℕ → ℕ → List ℕ → List ℕ
write_at offset bytes data_len payload =
    take offset payload
    ++ (bytes ++ (replicate (data_len - length bytes) 0 ++ drop (offset + data_len) payload))

unfoldable pub grow_for : ℕ → ℕ → Pickle → Pickle
grow_for new_size new_capacity p =
    if ltb p.capacity_after_header new_size then resize new_capacity p else p

unfoldable pub store : List ℕ → ℕ → ℕ → Pickle → Option Pickle
store bytes data_len new_size p =
    Option.map
      (λ b. record p {
        header = some (record b {
          payload_size = new_size % uint32_mod;
          payload = write_at p.write_offset bytes data_len b.payload;
        });
        write_offset = new_size;
      })
      p.header

unfoldable pub write_bytes_common : List ℕ → Pickle → Option Pickle
write_bytes_common bytes p =
    let data_len = align_int (length bytes) 4 in
    let new_size = (p.write_offset + data_len) % size_mod in
    store bytes data_len new_size
      (grow_for new_size (max (p.capacity_after_header * 2 % size_mod) new_size) p)

unfoldable pub reserve : ℕ → Pickle → Pickle
reserve length p =
    let data_len = align_int length 4 in
    let new_size = (p.write_offset + data_len) % size_mod in
    grow_for new_size ((p.capacity_after_header * 2 + new_size) % size_mod) p

-- WritePOD of a value of `width` bytes, and its callers. They all return true.
unfoldable pub write_pod : ℕ → ℕ → Pickle → Option Pickle
write_pod width value p = write_bytes_common (le_bytes width value) p

abbrev pub write_int : ℕ → Pickle → Option Pickle
write_int = write_pod 4

abbrev pub write_bool : Bool → Pickle → Option Pickle
write_bool value = write_int (if value then 1 else 0)

-- WriteBytes: the int length becomes a size_t.
unfoldable pub write_bytes : List ℕ → ℕ → Pickle → Option Pickle
write_bytes bytes length p =
    if is_negative length then none else write_bytes_common (take length bytes) p

unfoldable pub write_string : List ℕ → Pickle → Option Pickle
write_string value p =
    write_int (length value % uint32_mod) p >>= write_bytes value (length value % uint32_mod)

-- A wchar_t has four bytes.
abbrev pub wide_bytes : List ℕ → List ℕ
wide_bytes [] = []
wide_bytes (c ∷ cs) = le_bytes 4 c ++ wide_bytes cs

unfoldable pub write_wstring : List ℕ → Pickle → Option Pickle
write_wstring value p =
    write_int (length value % uint32_mod) p
    >>= write_bytes (wide_bytes value) (length value * 4 % uint32_mod)

-- WriteData returns false, and writes nothing, on a negative length.
unfoldable pub write_data : List ℕ → ℕ → Pickle → Option (Pickle × Bool)
write_data bytes length p =
    if is_negative length
    then some (p, false)
    else Option.map (λ q. (q, true)) (write_int length p >>= write_bytes bytes length)

-- Pickle(const char* data, int data_len): the subtraction is that of unsigned int.
unfoldable pub deduced_header_size : List ℕ → ℕ
deduced_header_size bytes =
    let data_len = length bytes in
    let declared = le_value (take 4 bytes) in
    let size =
      if leb sizeof_header data_len then (data_len + uint32_mod - declared) % uint32_mod else 0 in
    let fitting = if ltb data_len size then 0 else size in
    if fitting == align_int fitting 4 then fitting else 0

unfoldable pub from_data : List ℕ → Pickle
from_data bytes =
    let size = deduced_header_size bytes in
    record {
      header =
          if size == 0
          then none
          else some (record {
            payload_size = le_value (take 4 bytes);
            extra = take (size - 4) (drop 4 bytes);
            payload = drop size bytes;
          });
      header_size = size;
      capacity_after_header = capacity_read_only;
      write_offset = 0;
    }

abbrev pub stored : Block → Block
stored b = record b { payload = take b.payload_size b.payload }

-- The copy constructor, and the assignment from another object.
unfoldable pub copy : Pickle → Option Pickle
copy other =
    Option.map
      (λ b.
        record (resize ((other.header_size + b.payload_size) % size_mod)
          (unallocated other.header_size)) {
            header = some (stored b);
            write_offset = other.write_offset;
          })
      other.header

-- The object of an assignment, when its block can be resized.
unfoldable pub writable : Pickle → Pickle
writable this =
    if this.capacity_after_header == capacity_read_only
    then record this { header = none; capacity_after_header = 0 }
    else this

unfoldable pub sized : Pickle → Pickle → Pickle
sized this other =
    if this.header_size == other.header_size
    then this
    else record this { header = none; header_size = other.header_size }

-- Resize in an assignment, where the object may hold the bytes of others: realloc takes a null pointer or a block
-- of the pickle's own, and `none` is one of a pointer into the bytes of others.
unfoldable pub resize_own : ℕ → Pickle → Option Pickle
resize_own new_capacity this = elim this.header [
  | none ↦ some (resize new_capacity this)
  | some b ↦
      if this.capacity_after_header == capacity_read_only
      then none
      else some (resize new_capacity this)
]

unfoldable pub assign : Pickle → Pickle → Option Pickle
assign this other = other.header >>= λ b.
    resize_own b.payload_size (sized (writable this) other) >>= λ resized.
    some (record resized { header = some (stored b); write_offset = other.write_offset })

-- payload_size(), size() and the `size()` bytes at data().
abbrev pub payload_size : Pickle → ℕ
payload_size p = elim p.header [ none ↦ 0 | some b ↦ b.payload_size ]

abbrev pub payload : Pickle → List ℕ
payload p = elim p.header [ none ↦ [] | some b ↦ b.payload ]

unfoldable pub data_bytes : Pickle → List ℕ
data_bytes p = elim p.header [
  | none ↦ []
  | some b ↦
      take (p.header_size + b.payload_size) (le_bytes 4 b.payload_size ++ (b.extra ++ b.payload))
]

-- FindNext over the bytes of a range: how many belong to the first pickle.
unfoldable pub find_next : ℕ → List ℕ → Option ℕ
find_next header_size bytes =
    let len = length bytes in
    let declared = le_value (take 4 bytes) in
    if ltb len sizeof_header
    then none
    else if ltb len header_size
    then none
    else if ltb (len - header_size) declared
    then none
    else some (header_size + declared)
