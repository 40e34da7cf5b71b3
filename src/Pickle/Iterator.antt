-- ===== src/Pickle/Iterator.antt =====
-- The class PickleIterator. A read pointer is its offset in the payload, and a reader returns what
-- it read, if it did, with the iterator after it.
use mathlib.Core.Option
use gitrpc.Prelude.{
  ℕ, ◌+◌, ◌-◌, ◌*◌, ◌%◌, Bool, true, false, not, ◌||◌, Option, none, some, List, [], ◌∷◌, ltb, ◌==◌,
  ◌>>=◌, if◌then◌else◌, take, drop,
}
use gitrpc.Pickle.Words.{size_mod, uint32_mod, is_negative, align_int, le_value}
use gitrpc.Pickle.Writer
use gitrpc.Pickle.Writer.{Pickle}

pub record PickleIterator : Type 0 where
  pub payload : List ℕ
  pub read_index : ℕ
  pub end_index : ℕ

unfoldable pub iterator : Pickle → PickleIterator
iterator p = record {
  payload = Writer.payload p;
  read_index = 0;
  end_index = Writer.payload_size p;
}

-- end_index_ - read_index_, as a size_t.
abbrev pub available : PickleIterator → ℕ
available it = (it.end_index + size_mod - it.read_index) % size_mod

abbrev pub at_end : PickleIterator → PickleIterator
at_end it = record it { read_index = it.end_index }

unfoldable pub advance : ℕ → PickleIterator → PickleIterator
advance size it =
    let aligned = align_int size 4 in
    if ltb (available it) aligned
    then at_end it
    else record it { read_index = (it.read_index + aligned) % size_mod }

-- GetReadPointerAndAdvance<Type>() for a type of `width` bytes.
unfoldable pub get_read_pointer_pod : ℕ → PickleIterator → Option ℕ × PickleIterator
get_read_pointer_pod width it =
    if ltb (available it) width then (none, at_end it) else (some it.read_index, advance width it)

-- GetReadPointerAndAdvance(int num_bytes)
unfoldable pub get_read_pointer : ℕ → PickleIterator → Option ℕ × PickleIterator
get_read_pointer num_bytes it =
    if is_negative num_bytes || ltb (available it) num_bytes
    then (none, at_end it)
    else (some it.read_index, advance num_bytes it)

-- An int as an int64_t, both as patterns.
abbrev pub sign_extend : ℕ → ℕ
sign_extend v = if is_negative v then v + (size_mod - uint32_mod) else v

-- GetReadPointerAndAdvance(int num_elements, size_t size_element)
unfoldable pub get_read_pointer_elements : ℕ → ℕ → PickleIterator → Option ℕ × PickleIterator
get_read_pointer_elements num_elements size_element it =
    let num_bytes = sign_extend num_elements * size_element % size_mod in
    let num_bytes32 = num_bytes % uint32_mod in
    if num_bytes == sign_extend num_bytes32 then get_read_pointer num_bytes32 it else (none, it)

abbrev pub bytes_at : PickleIterator → ℕ → ℕ → List ℕ
bytes_at it offset n = take n (drop offset it.payload)

-- ReadBuiltinType, ReadFloat and ReadDouble: the value of `width` bytes.
unfoldable pub read_pod : ℕ → PickleIterator → Option ℕ × PickleIterator
read_pod width it =
    let (pointer, next) = get_read_pointer_pod width it in
    (Option.map (λ offset. le_value (bytes_at it offset width)) pointer, next)

abbrev pub read_int : PickleIterator → Option ℕ × PickleIterator
read_int = read_pod 4

-- A bool has one byte.
unfoldable pub read_bool : PickleIterator → Option Bool × PickleIterator
read_bool it = let (value, next) = read_pod 1 it in (Option.map (λ v. not (v == 0)) value, next)

unfoldable pub read_bytes : ℕ → PickleIterator → Option (List ℕ) × PickleIterator
read_bytes length it =
    let (pointer, next) = get_read_pointer length it in
    (Option.map (λ offset. bytes_at it offset length) pointer, next)

-- A reader that goes on with what the one before it read, if it did.
abbrev pub and_then :
    {A B : Type 0}
    → Option A × PickleIterator
    → (A → PickleIterator → Option B × PickleIterator)
    → Option B × PickleIterator
and_then (none, next) read = (none, next)
and_then (some value, next) read = read value next

-- ReadString and ReadData: an int length, then as many bytes.
unfoldable pub read_string : PickleIterator → Option (List ℕ) × PickleIterator
read_string it = and_then (read_int it) read_bytes

-- The wchar_t values of consecutive bytes.
unfoldable pub wide_values : ℕ → List ℕ → List ℕ
wide_values ℕ.zero bytes = []
wide_values (ℕ.suc n) bytes = le_value (take 4 bytes) ∷ wide_values n (drop 4 bytes)

unfoldable pub read_wstring : PickleIterator → Option (List ℕ) × PickleIterator
read_wstring it = and_then (read_int it) λ len next.
    let (pointer, after) = get_read_pointer_elements len 4 next in
    (Option.map (λ offset. wide_values len (drop offset next.payload)) pointer, after)

-- ReadLength fails on a negative value, after it was read.
unfoldable pub read_length : PickleIterator → Option ℕ × PickleIterator
read_length it =
    let (value, next) = read_int it in
    (value >>= (λ v. if is_negative v then none else some v), next)

unfoldable pub skip_bytes : ℕ → PickleIterator → Bool × PickleIterator
skip_bytes num_bytes it =
    let (pointer, next) = get_read_pointer num_bytes it in
    (elim pointer [ none ↦ false | some _ ↦ true ], next)
