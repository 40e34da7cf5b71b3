-- ===== src/Pickle/Bounds.antt =====
-- The readers of PickleIterator on any bytes, one after the other.
use gitrpc.Prelude.{
  ℕ, ◌*◌, ◌%◌, ◌<◌, ◌≡◌, refl, inl, inr, Option, none, some, List, [], ◌∷◌, arith, ◌==◌, Bool-cases,
  drop, All-drop,
}
use gitrpc.Pickle.Words.{size_mod, uint32_mod, IsByte, le_value-take}
use gitrpc.Pickle.Iterator.{
  PickleIterator, sign_extend, get_read_pointer_elements, read_pod, read_bool, read_bytes, and_then,
  read_string, read_wstring, read_length, skip_bytes,
}
use gitrpc.Pickle.Within.{
  IsWithin, Follows, get_read_pointer-Answers, get_read_pointer_pod-Answers, Follows-IsWithin,
  Follows-refl, Follows-trans,
}

elements-Follows :
    (n size : ℕ) (it : PickleIterator)
    → IsWithin it
    → Follows it (get_read_pointer_elements n size it).1
unfolding get_read_pointer_elements
elements-Follows n size it v =
    let bytes : ℕ = sign_extend n * size % size_mod in
    elim (Bool-cases (bytes == sign_extend (bytes % uint32_mod))) [
      | inl fits ↦ rw fits (get_read_pointer-Answers (bytes % uint32_mod) it v (omega arith)).0
      | inr over ↦ rw over (Follows-refl v)
    ]

read_pod-Follows :
    (n : ℕ) (it : PickleIterator) → IsWithin it → n < uint32_mod → Follows it (read_pod n it).1
unfolding read_pod
read_pod-Follows n it v h = (get_read_pointer_pod-Answers n it v h).0

read_bytes-Follows :
    (n : ℕ) (it : PickleIterator) → IsWithin it → n < uint32_mod → Follows it (read_bytes n it).1
unfolding read_bytes
read_bytes-Follows n it v h = (get_read_pointer-Answers n it v h).0

-- An int that was read is below 2 ^ 32.
read_int-lt :
    (it : PickleIterator) {len : ℕ} → IsWithin it → (read_pod 4 it).0 ≡ some len → len < uint32_mod
unfolding read_pod
read_int-lt it v e = ground (
  arith,
  get_read_pointer_pod-Answers 4 it v (omega arith),
  le_value-take 4 (drop it.read_index it.payload)
      (All-drop IsByte it.read_index it.payload v.of_bytes),
)

and_then-Follows :
    {A B : Type 0} {it : PickleIterator} (r : Option A × PickleIterator)
    (read : A → PickleIterator → Option B × PickleIterator)
    → Follows it r.1
    → ((value : A) → r.0 ≡ some value → Follows r.1 (read value r.1).1)
    → Follows it (and_then r read).1
and_then-Follows (none, next) read f g = f
and_then-Follows (some value, next) read f g = Follows-trans f (g value refl)

read_string-Follows : (it : PickleIterator) → IsWithin it → Follows it (read_string it).1
unfolding read_string
read_string-Follows it v =
    let f = read_pod-Follows 4 it v (omega arith) in
    and_then-Follows (read_pod 4 it) read_bytes f
      λ len e. read_bytes-Follows len _ (Follows-IsWithin v f) (read_int-lt it v e)

read_wstring-Follows : (it : PickleIterator) → IsWithin it → Follows it (read_wstring it).1
unfolding read_wstring
read_wstring-Follows it v =
    let f = read_pod-Follows 4 it v (omega arith) in
    and_then-Follows (read_pod 4 it) _ f λ len e. elements-Follows len 4 _ (Follows-IsWithin v f)

-- The readers of the class, each with its arguments.
pub data Read : Type 0 where
  pod : ℕ → Read
  boolean : Read
  bytes : ℕ → Read
  string : Read
  wide_string : Read
  length_of : Read
  skip : ℕ → Read

-- The iterator after one call; an argument is an int, as a pattern.
pub after : Read → PickleIterator → PickleIterator
after (pod n) it = (read_pod (n % uint32_mod) it).1
after boolean it = (read_bool it).1
after (bytes n) it = (read_bytes (n % uint32_mod) it).1
after string it = (read_string it).1
after wide_string it = (read_wstring it).1
after length_of it = (read_length it).1
after (skip n) it = (skip_bytes (n % uint32_mod) it).1

after-Follows : (r : Read) (it : PickleIterator) → IsWithin it → Follows it (after r it)
unfolding after read_bool read_length skip_bytes
after-Follows (pod n) it v = read_pod-Follows (n % uint32_mod) it v (omega arith)
after-Follows boolean it v = read_pod-Follows 1 it v (omega arith)
after-Follows (bytes n) it v = read_bytes-Follows (n % uint32_mod) it v (omega arith)
after-Follows string it v = read_string-Follows it v
after-Follows wide_string it v = read_wstring-Follows it v
after-Follows length_of it v = read_pod-Follows 4 it v (omega arith)
after-Follows (skip n) it v = (get_read_pointer-Answers (n % uint32_mod) it v (omega arith)).0

-- Any calls in a row.
pub after_all : List Read → PickleIterator → PickleIterator
after_all [] it = it
after_all (r ∷ rs) it = after_all rs (after r it)

-- After any sequence of reads from any bytes, failed ones included, by an iterator whose index is within
-- its payload, the index is still at most the
-- end, has not moved back, and the payload and its end are the same.
pub after_all-Follows :
    (rs : List Read) (it : PickleIterator) → IsWithin it → Follows it (after_all rs it)
unfolding after_all
after_all-Follows [] it v = Follows-refl v
after_all-Follows (r ∷ rs) it v =
    let f = after-Follows r it v in
    Follows-trans f (after_all-Follows rs (after r it) (Follows-IsWithin v f))
