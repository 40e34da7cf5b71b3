-- ===== src/Pickle/Copies.antt =====
-- The copy constructor and the assignment of Pickle.
use gitrpc.Prelude.{
  ℕ, ◌+◌, ◌%◌, ◌^◌, ◌≤◌, ◌<◌, ◌==◌, ==_iff, ◌≡◌, refl, ap, ◌∙◌, Bool, true, false, some, none, List,
  Option, inl, inr, Bool-cases, arith, length, take_all, if◌then◌else◌, ◌⊎◌, ◌>>=◌,
}
use gitrpc.Pickle.Words.{size_mod, align_unit}
use gitrpc.Pickle.Writer.{
  Block, Pickle, resize, stored, copy, assign, sized, writable, unallocated, resize_own,
  capacity_read_only,
}
use gitrpc.Pickle.Growth.{Holds, block_of}

stored-block_of :
    (extra contents : List ℕ) → stored (block_of extra contents) ≡ block_of extra contents
stored-block_of extra contents =
    ap (λ x. record (block_of extra contents) { payload = x })
      (take_all (length contents) contents (omega arith))

-- A pickle whose payload is copied whole, with room for `size` bytes.
abbrev filled : Pickle → List ℕ → List ℕ → ℕ → Pickle
filled p extra contents size = record (resize size p) {
  header = some (stored (block_of extra contents));
  write_offset = length contents;
}

filled-Holds :
    (p : Pickle) (extra contents : List ℕ) (size : ℕ)
    → length contents % 4 ≡ 0
    → length contents ≤ size
    → size ≤ 2 ^ 33 + 2 ^ 32
    → Holds (filled p extra contents size) extra contents
      × ((filled p extra contents size).header_size ≡ p.header_size)
unfolding resize
filled-Holds p extra contents size aligned fits small = (
  record {
    block = ap some (stored-block_of extra contents);
    offset = refl;
    aligned = aligned;
    fits = omega (arith, align_unit size (omega arith));
    unit = omega (arith, align_unit size (omega arith));
    bounded = omega (arith, align_unit size (omega arith));
  },
  refl,
)

-- A copy of a writable pickle is writable and has the same payload and the same header; the size of the header is
-- below 4 GB, and so is the payload.
copy-Holds :
    (p : Pickle) (extra contents : List ℕ)
    → Holds p extra contents
    → length contents < 2 ^ 32
    → p.header_size < 2 ^ 32
    → (q : Pickle) × (copy p ≡ some q) × Holds q extra contents × (q.header_size ≡ p.header_size)
unfolding copy
copy-Holds p extra contents holds small short =
    let (held, same) =
      filled-Holds (unallocated p.header_size) extra contents
        ((p.header_size + length contents) % size_mod) holds.aligned (omega arith) (omega arith) in
    (
      filled (unallocated p.header_size) extra contents
          ((p.header_size + length contents) % size_mod),
      rw (holds.block, holds.offset) refl,
      held,
      same,
    )

header_size-either :
    (same : Bool) (this other : Pickle)
    → (same ≡ true → this.header_size ≡ other.header_size)
    → (if same
        then this
        else record this { header = none; header_size = other.header_size }).header_size
      ≡ other.header_size
header_size-either true this other e = e refl
header_size-either false this other e = refl

sized-header_size : (this other : Pickle) → (sized this other).header_size ≡ other.header_size
unfolding sized
sized-header_size this other =
    header_size-either (this.header_size == other.header_size) this other
      (==_iff this.header_size other.header_size).0

-- The object holds no bytes of others.
abbrev IsOwn : Pickle → Type 0
IsOwn p = (p.header ≡ none) ⊎ ((p.capacity_after_header == capacity_read_only) ≡ false)

own_resize :
    {A B : Type 0} (header : Option A) (foreign : Bool) (resized : B)
    → (header ≡ none) ⊎ (foreign ≡ false)
    → (elim header [ none ↦ some resized | some b ↦ if foreign then none else some resized ])
      ≡ some resized
own_resize none foreign resized own = refl
own_resize (some b) foreign resized (inl e) = absurd (ground arith)
own_resize (some b) foreign resized (inr e) = rw e refl

resize_own-IsOwn : (size : ℕ) (p : Pickle) → IsOwn p → resize_own size p ≡ some (resize size p)
unfolding resize_own
resize_own-IsOwn size p own =
    own_resize p.header (p.capacity_after_header == capacity_read_only) (resize size p) own

writable-IsOwn : (this : Pickle) → IsOwn (writable this)
unfolding writable
writable-IsOwn this = elim (Bool-cases (this.capacity_after_header == capacity_read_only)) [
  | inl foreign ↦ rw foreign (inl refl)
  | inr own ↦ rw own (inr own)
]

sized-IsOwn : (this other : Pickle) → IsOwn this → IsOwn (sized this other)
unfolding sized
sized-IsOwn this other own = elim (Bool-cases (this.header_size == other.header_size)) [
  | inl same ↦ rw same own
  | inr differs ↦ rw differs (inl refl)
]

-- An assignment from a writable pickle below 4 GB to another object, read-only or not and whatever it held, leaves
-- that object writable with the payload and the header of the other pickle, and reallocates no bytes of others.
pub assign-Holds :
    (this p : Pickle) (extra contents : List ℕ)
    → Holds p extra contents
    → length contents < 2 ^ 32
    → (q : Pickle) × (assign this p ≡ some q)
      × Holds q extra contents
      × (q.header_size ≡ p.header_size)
unfolding assign
assign-Holds this p extra contents holds small =
    let target = sized (writable this) p in
    let (held, same) =
      filled-Holds (sized (writable this) p) extra contents (length contents) holds.aligned
        (omega arith) (omega arith) in
    (
      filled (sized (writable this) p) extra contents (length contents),
      ap
            (λ (h : Option Block). h >>= λ b. resize_own b.payload_size target >>= λ r.
              some (record r { header = some (stored b); write_offset = p.write_offset }))
            holds.block
          ∙ ap
              (λ (r : Option Pickle). r >>= λ r1. some (record r1 {
                header = some (stored (block_of extra contents));
                write_offset = p.write_offset;
              }))
              (resize_own-IsOwn (length contents) target
                (sized-IsOwn (writable this) p (writable-IsOwn this)))
          ∙ ap
              (λ n.
                some (record (filled target extra contents (length contents)) { write_offset = n }))
              holds.offset,
      held,
      same ∙ sized-header_size (writable this) p,
    )
