-- ===== src/Pickle/Wide.antt =====
-- ReadWString with a length whose byte count is no int.
use gitrpc.Prelude.{ℕ, ◌*◌, ◌%◌, ◌^◌, ◌≤◌, ◌<◌, ◌≡◌, sym, false, none, List, ◌++◌, arith, ◌==◌}
use gitrpc.Pickle.Words.{size_mod, uint32_mod, le_bytes, length-le_bytes, le_value-le_bytes}
use gitrpc.Pickle.Iterator.{read_wstring, get_read_pointer_elements, sign_extend}
use gitrpc.Pickle.Growth.{padded}
use gitrpc.Pickle.Fields.{reading, IsSmall, read_pod_at}
use gitrpc.Pickle.Values.{length-padded_pod, fill}

overflows :
    (n : ℕ)
    → 2 ^ 29 ≤ n
    → n < 2 ^ 31
    → (sign_extend n * 4 % size_mod == sign_extend (sign_extend n * 4 % size_mod % uint32_mod))
      ≡ false
overflows n lo hi = ground arith

-- A length of 2 ^ 29 or more that is no negative int, in a payload of a length that a pickle can have,
-- makes ReadWString fail with the iterator right behind the length, not at
-- the end of the payload: what follows can still be read.
pub read_wstring_overflow :
    (n : ℕ) (before rest : List ℕ)
    → 2 ^ 29 ≤ n
    → n < 2 ^ 31
    → IsSmall before (padded (le_bytes 4 n) ++ rest)
    → read_wstring (reading before (padded (le_bytes 4 n) ++ rest))
      ≡ (none, reading (before ++ padded (le_bytes 4 n)) rest)
unfolding read_wstring get_read_pointer_elements
read_wstring_overflow n before rest lo hi small = rw (
  read_pod_at 4 before (le_bytes 4 n) (fill (le_bytes 4 n)) rest
      (sym (length-padded_pod 4 n (omega arith))) (length-le_bytes 4 n) small,
  le_value-le_bytes 4 n (omega arith),
  overflows n lo hi,
)
