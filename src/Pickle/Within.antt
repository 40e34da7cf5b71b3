-- ===== src/Pickle/Within.antt =====
-- A read pointer of PickleIterator on any bytes: where it leaves the index.
use gitrpc.Prelude.{
  ℕ, ◌+◌, ◌-◌, ◌%◌, ◌^◌, ◌≤◌, ◌<◌, ◌≡◌, refl, ◌∙◌, ◌⊎◌, inl, inr, ◌||◌, Option, none, some, arith,
  ltb, Bool-cases, All,
}
use gitrpc.Pickle.Words.{size_mod, uint32_mod, is_negative, align_int, align_four, IsByte}
use gitrpc.Pickle.Iterator.{
  PickleIterator, available, at_end, advance, get_read_pointer_pod, get_read_pointer,
}

-- The index does not pass the end, the end is a uint32_t, as payload_size is, and the payload
-- consists of bytes.
pub record IsWithin (it : PickleIterator) : Type 0 where
  pub ordered : it.read_index ≤ it.end_index
  pub small : it.end_index < uint32_mod
  pub of_bytes : All IsByte it.payload

-- `next` reads the same payload as `it`, from the same place or further on.
pub record Follows (it next : PickleIterator) : Type 0 where
  pub within : next.read_index ≤ next.end_index
  pub small : next.end_index < uint32_mod
  pub same_end : next.end_index ≡ it.end_index
  pub same_payload : next.payload ≡ it.payload
  pub forward : it.read_index ≤ next.read_index

-- A request for `n` bytes either fails and moves to the end, because fewer are left
-- or `n` is no positive int, or hands out
-- the current index, with all `n` bytes in front of the end.
abbrev pub Answers : ℕ → PickleIterator → Option ℕ → PickleIterator → Type 0
Answers n it pointer next =
    ((pointer ≡ none)
      × (next.read_index ≡ it.end_index)
      × ((it.end_index < it.read_index + n) ⊎ (2 ^ 31 ≤ n)))
    ⊎ ((pointer ≡ some it.read_index)
        × (it.read_index + n ≤ next.read_index)
        × (next.read_index ≤ it.end_index))

abbrev at_end-Follows : (it : PickleIterator) → IsWithin it → Follows it (at_end it)
at_end-Follows it v = record {
  within = omega arith;
  small = v.small;
  same_end = refl;
  same_payload = refl;
  forward = v.ordered;
}

advance-Follows :
    (n : ℕ) (it : PickleIterator)
    → IsWithin it
    → it.read_index + n ≤ it.end_index
    → Follows it (advance n it) × (it.read_index + n ≤ (advance n it).read_index)
unfolding advance
advance-Follows n it v room =
    let a = align_four n (omega arith) in
    elim (Bool-cases (ltb (available it) (align_int n 4))) [
      | inl over ↦ rw over (at_end-Follows it v, room)
      | inr inside ↦
          let left : align_int n 4 ≤ it.end_index - it.read_index = ground arith in
          let index : (it.read_index + align_int n 4) % size_mod ≡ it.read_index + align_int n 4 =
            omega arith in
          rw (inside, index)
            (
              record {
                within = omega arith;
                small = v.small;
                same_end = refl;
                same_payload = refl;
                forward = omega arith;
              },
              omega arith,
            )
    ]

-- On an iterator within its payload, and for every int, GetReadPointerAndAdvance(int num_bytes) either
-- gives no pointer and goes to the end, and then the int is negative or more than what is left, or it
-- gives the index and moves behind the bytes, and no further than the end.
pub get_read_pointer-Answers :
    (n : ℕ) (it : PickleIterator)
    → IsWithin it
    → n < uint32_mod
    → Follows it (get_read_pointer n it).1
      × Answers n it (get_read_pointer n it).0 (get_read_pointer n it).1
unfolding get_read_pointer
get_read_pointer-Answers n it v h = elim (Bool-cases (is_negative n || ltb (available it) n)) [
  | inl fails ↦ rw fails (at_end-Follows it v, inl (refl, refl, ground arith))
  | inr fits ↦
      let a = advance-Follows n it v (ground arith) in
      rw fits (a.0, inr (refl, a.1, ground (arith, a.0.within, a.0.same_end)))
]

-- The typed read pointer, for the few bytes of a built-in type.
pub get_read_pointer_pod-Answers :
    (n : ℕ) (it : PickleIterator)
    → IsWithin it
    → n < uint32_mod
    → Follows it (get_read_pointer_pod n it).1
      × Answers n it (get_read_pointer_pod n it).0 (get_read_pointer_pod n it).1
unfolding get_read_pointer_pod
get_read_pointer_pod-Answers n it v h = elim (Bool-cases (ltb (available it) n)) [
  | inl fails ↦ rw fails (at_end-Follows it v, inl (refl, refl, ground arith))
  | inr fits ↦
      let a = advance-Follows n it v (ground arith) in
      rw fits (a.0, inr (refl, a.1, ground (arith, a.0.within, a.0.same_end)))
]

pub Follows-IsWithin : {it next : PickleIterator} → IsWithin it → Follows it next → IsWithin next
Follows-IsWithin v f = record {
  ordered = f.within;
  small = f.small;
  of_bytes = rw f.same_payload v.of_bytes;
}

pub Follows-refl : {it : PickleIterator} → IsWithin it → Follows it it
Follows-refl v = record {
  within = v.ordered;
  small = v.small;
  same_end = refl;
  same_payload = refl;
  forward = omega arith;
}

pub Follows-trans : {a b c : PickleIterator} → Follows a b → Follows b c → Follows a c
Follows-trans f g = record {
  within = g.within;
  small = g.small;
  same_end = g.same_end ∙ f.same_end;
  same_payload = g.same_payload ∙ f.same_payload;
  forward = omega arith;
}
