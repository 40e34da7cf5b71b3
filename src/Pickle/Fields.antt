-- ===== src/Pickle/Fields.antt =====
-- Reading at a known place of the payload: one field, whatever stands before and after it.
use gitrpc.Prelude.{
  ℕ, ◌+◌, ◌%◌, ◌^◌, ◌≤◌, ◌<◌, ◌≡◌, refl, false, ◌||◌, some, List, ◌++◌, append_assoc, arith, ltb,
  length, take, drop, length-append, take-append, drop-append,
}
use gitrpc.Pickle.Words.{size_mod, uint32_mod, is_negative, align_int, le_value}
use gitrpc.Pickle.Iterator.{
  PickleIterator, available, advance, get_read_pointer_pod, get_read_pointer, read_pod, read_bytes,
}

-- The iterator that has read `before` and has `rest` in front of it.
abbrev pub reading : List ℕ → List ℕ → PickleIterator
reading before rest = record {
  payload = before ++ rest;
  read_index = length before;
  end_index = length (before ++ rest);
}

abbrev pub IsSmall : List ℕ → List ℕ → Type 0
IsSmall before rest = length before + length rest < uint32_mod

reading_on :
    (before field rest : List ℕ)
    → record (reading before (field ++ rest)) { read_index = length before + length field }
      ≡ reading (before ++ field) rest
reading_on before field rest = rw (append_assoc before field rest, length-append before field)

available_at :
    (before rest : List ℕ) → IsSmall before rest → available (reading before rest) ≡ length rest
available_at before rest small = omega (arith, length-append before rest)

-- Advancing by `n` bytes, over a field of as many bytes and their padding.
advance_at :
    (n : ℕ) (before field rest : List ℕ)
    → align_int n 4 ≡ length field
    → IsSmall before (field ++ rest)
    → advance n (reading before (field ++ rest)) ≡ reading (before ++ field) rest
unfolding advance
advance_at n before field rest e small =
    let room = length-append field rest in
    let inside : ltb (length (field ++ rest)) (length field) ≡ false = ground arith in
    let index : (length before + length field) % size_mod ≡ length before + length field =
      omega arith in
    rw (available_at before (field ++ rest) small, e, inside, index) (reading_on before field rest)

get_read_pointer_pod_at :
    (n : ℕ) (before field rest : List ℕ)
    → align_int n 4 ≡ length field
    → n ≤ length field
    → IsSmall before (field ++ rest)
    → get_read_pointer_pod n (reading before (field ++ rest))
      ≡ (some (length before), reading (before ++ field) rest)
unfolding get_read_pointer_pod
get_read_pointer_pod_at n before field rest e fits small =
    let room = length-append field rest in
    let inside : ltb (length (field ++ rest)) n ≡ false = ground arith in
    rw (available_at before (field ++ rest) small, inside, advance_at n before field rest e small)

get_read_pointer_at :
    (n : ℕ) (before field rest : List ℕ)
    → align_int n 4 ≡ length field
    → n ≤ length field
    → n < 2 ^ 31
    → IsSmall before (field ++ rest)
    → get_read_pointer n (reading before (field ++ rest))
      ≡ (some (length before), reading (before ++ field) rest)
unfolding get_read_pointer
get_read_pointer_at n before field rest e fits positive small =
    let room = length-append field rest in
    let inside : (is_negative n || ltb (length (field ++ rest)) n) ≡ false = ground arith in
    rw (available_at before (field ++ rest) small, inside, advance_at n before field rest e small)

bytes_before :
    (n : ℕ) (before bytes rest : List ℕ)
    → length bytes ≡ n
    → take n (drop (length before) (before ++ (bytes ++ rest))) ≡ bytes
bytes_before n before bytes rest e =
    rw (drop-append (length before) before (bytes ++ rest) refl) (take-append n bytes rest e)

-- The first `n` bytes of a field are `bytes`.
pub read_pod_at :
    (n : ℕ) (before bytes fill rest : List ℕ)
    → align_int n 4 ≡ length (bytes ++ fill)
    → length bytes ≡ n
    → IsSmall before ((bytes ++ fill) ++ rest)
    → read_pod n (reading before ((bytes ++ fill) ++ rest))
      ≡ (some (le_value bytes), reading (before ++ (bytes ++ fill)) rest)
unfolding read_pod
read_pod_at n before bytes fill rest e len small = rw (
  get_read_pointer_pod_at n before (bytes ++ fill) rest e (omega (arith, length-append bytes fill))
      small,
  append_assoc bytes fill rest,
  bytes_before n before bytes (fill ++ rest) len,
)

pub read_bytes_at :
    (n : ℕ) (before bytes fill rest : List ℕ)
    → align_int n 4 ≡ length (bytes ++ fill)
    → length bytes ≡ n
    → n < 2 ^ 31
    → IsSmall before ((bytes ++ fill) ++ rest)
    → read_bytes n (reading before ((bytes ++ fill) ++ rest))
      ≡ (some bytes, reading (before ++ (bytes ++ fill)) rest)
unfolding read_bytes
read_bytes_at n before bytes fill rest e len positive small = rw (
  get_read_pointer_at n before (bytes ++ fill) rest e (omega (arith, length-append bytes fill))
      positive small,
  append_assoc bytes fill rest,
  bytes_before n before bytes (fill ++ rest) len,
)
