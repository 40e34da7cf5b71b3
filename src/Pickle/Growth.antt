-- ===== src/Pickle/Growth.antt =====
-- What a writer leaves behind: the stored bytes, and a capacity that covers them.
use Prim.Native.Nat.{max}
use gitrpc.Prelude.{
  ℕ, ◌+◌, ◌-◌, ◌*◌, ◌%◌, ◌^◌, ◌≤◌, ◌<◌, ◌≡◌, refl, ap, ◌∙◌, inl, inr, some, List, [], ◌++◌,
  append-nil, arith, ltb, length, replicate, length-append, length-replicate, take_all, drop_all,
  Bool-cases,
}
use gitrpc.Pickle.Words.{size_mod, uint32_mod, align_int, align_four, align_unit}
use gitrpc.Pickle.Writer.{
  Block, Pickle, realloc, resize, new, grow_for, store, write_at, write_bytes_common,
}

-- The bytes of a field, filled with zeros to a multiple of four.
abbrev pub padded : List ℕ → List ℕ
padded bytes = bytes ++ replicate (align_int (length bytes) 4 - length bytes) 0

abbrev pub block_of : List ℕ → List ℕ → Block
block_of extra contents = record {
  payload_size = length contents;
  extra = extra;
  payload = contents;
}

-- The pickle is writable and its payload is `contents`.
pub record Holds (p : Pickle) (extra contents : List ℕ) : Type 0 where
  pub block : p.header ≡ some (block_of extra contents)
  pub offset : p.write_offset ≡ length contents
  pub aligned : length contents % 4 ≡ 0
  pub fits : length contents ≤ p.capacity_after_header
  pub unit : p.capacity_after_header % 64 ≡ 0
  pub bounded : p.capacity_after_header ≤ 2 ^ 34

pub new-Holds : Holds new [] []
unfolding new align_int resize
new-Holds = record {
  block = refl;
  offset = refl;
  aligned = refl;
  fits = omega arith;
  unit = refl;
  bounded = omega arith;
}

pub length-padded :
    (bytes : List ℕ)
    → length bytes + 4 ≤ size_mod
    → length (padded bytes) ≡ align_int (length bytes) 4
length-padded bytes h = omega (
  arith,
  align_four (length bytes) h,
  length-append bytes (replicate (align_int (length bytes) 4 - length bytes) 0),
  length-replicate {A = ℕ} (align_int (length bytes) 4 - length bytes) 0,
)

write_at_end :
    (bytes contents : List ℕ) (n : ℕ)
    → write_at (length contents) bytes n contents
      ≡ contents ++ (bytes ++ replicate (n - length bytes) 0)
write_at_end bytes contents n = rw (
  take_all (length contents) contents (omega arith),
  drop_all (length contents + n) contents (omega arith),
  append-nil,
)

-- Growing keeps the payload, and makes room for `new_size` bytes.
grow_for-Holds :
    (p : Pickle) (extra contents : List ℕ) (new_size new_capacity : ℕ)
    → Holds p extra contents
    → length contents ≤ new_size
    → new_size ≤ new_capacity
    → (p.capacity_after_header < new_size → new_capacity ≤ 2 ^ 33 + 2 ^ 32)
    → Holds (grow_for new_size new_capacity p) extra contents
      × (new_size ≤ (grow_for new_size new_capacity p).capacity_after_header)
      × ((grow_for new_size new_capacity p).header_size ≡ p.header_size)
unfolding grow_for resize realloc
grow_for-Holds p extra contents new_size new_capacity v below room small =
    elim (Bool-cases (ltb p.capacity_after_header new_size)) [
      | inl grows ↦
          let u = align_unit new_capacity (ground (arith, small (ground arith))) in
          let kept = take_all (align_int new_capacity 64) contents (omega arith) in
          let le : new_capacity ≤ 2 ^ 33 + 2 ^ 32 = small (ground arith) in
          rw grows (
            record {
              block = rw v.block (
                  ap (λ (c : List ℕ). some (record (block_of extra contents) { payload = c }))
                    kept);
              offset = v.offset;
              aligned = v.aligned;
              fits = omega arith;
              unit = u.0;
              bounded = omega arith;
            },
            omega arith,
            refl,
          )
      | inr stays ↦ rw stays (v, ground arith, refl)
    ]

-- The size of the payload with one more field, in the arithmetic of the code.
appended_size :
    (bytes contents : List ℕ)
    → length contents % 4 ≡ 0
    → length contents + length bytes + 4 ≤ uint32_mod
    → (length (contents ++ padded bytes) ≡ length contents + align_int (length bytes) 4)
      × (length (contents ++ padded bytes) % 4 ≡ 0)
      × (length (contents ++ padded bytes) < uint32_mod)
appended_size bytes contents aligned small =
    omega
      (arith, align_four (length bytes), length-append contents (padded bytes), length-padded bytes)

store-Holds :
    (bytes : List ℕ) (q : Pickle) (extra contents : List ℕ) (new_size : ℕ)
    → Holds q extra contents
    → length contents + length bytes + 4 ≤ uint32_mod
    → new_size ≡ length (contents ++ padded bytes)
    → new_size ≤ q.capacity_after_header
    → (r : Pickle) × (store bytes (align_int (length bytes) 4) new_size q ≡ some r)
      × Holds r extra (contents ++ padded bytes)
      × (r.header_size ≡ q.header_size)
unfolding store
store-Holds bytes q extra contents new_size v small e room =
    let a = appended_size bytes contents v.aligned small in
    let size : new_size % uint32_mod ≡ length (contents ++ padded bytes) = omega arith in
    (
      record q {
        header = some (block_of extra (contents ++ padded bytes));
        write_offset = new_size;
      },
      rw (v.block, v.offset, write_at_end bytes contents (align_int (length bytes) 4), size),
      record {
        block = refl;
        offset = e;
        aligned = a.1;
        fits = omega arith;
        unit = v.unit;
        bounded = v.bounded;
      },
      refl,
    )

-- WriteBytesCommon appends the bytes and their padding, on a pickle whose payload stays below 4 GB.
pub write_bytes_common-Holds :
    (bytes : List ℕ) (p : Pickle) (extra contents : List ℕ)
    → Holds p extra contents
    → length contents + length bytes + 4 ≤ uint32_mod
    → (q : Pickle) × (write_bytes_common bytes p ≡ some q)
      × Holds q extra (contents ++ padded bytes)
      × (q.header_size ≡ p.header_size)
unfolding write_bytes_common
write_bytes_common-Holds bytes p extra contents v small =
    let n : ℕ = align_int (length bytes) 4 in
    let new_size : ℕ = (p.write_offset + n) % size_mod in
    let new_capacity : ℕ = max (p.capacity_after_header * 2 % size_mod) new_size in
    let a = appended_size bytes contents v.aligned small in
    let e : new_size ≡ length (contents ++ padded bytes) = omega (arith, v.offset, a) in
    let g =
      grow_for-Holds p extra contents new_size new_capacity v (omega arith) (omega arith)
        (λ h. omega arith) in
    let s =
      store-Holds bytes (grow_for new_size new_capacity p) extra contents new_size g.0 small e
        g.1 in
    (s.0, s.1, s.2, s.3 ∙ g.2)
