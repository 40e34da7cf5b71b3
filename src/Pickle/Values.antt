-- ===== src/Pickle/Values.antt =====
-- The values that a pickle holds: how a list of them is written and read, and the bytes of each.
use mathlib.Core.Option
use gitrpc.Prelude.{
  ℕ, ◌+◌, ◌-◌, ◌%◌, ◌^◌, ◌≤◌, ◌<◌, ◌≡◌, refl, ap, ◌∙◌, Bool, false, Option, some, List, [], ◌∷◌,
  ◌++◌, append_assoc, arith, ◌>>=◌, if◌then◌else◌, length, replicate, length-append, take_all,
}
use gitrpc.Pickle.Words.{uint32_mod, is_negative, align_int, align_four, le_bytes, length-le_bytes}
use gitrpc.Pickle.Writer.{Pickle, write_pod, write_bytes, write_bool, write_string}
use gitrpc.Pickle.Iterator.{PickleIterator, read_pod, read_bool, read_string}
use gitrpc.Pickle.Growth.{Holds, padded, length-padded, write_bytes_common-Holds}

-- A value of one of the types that the class writes: a bool, a built-in type of `width` bytes as
-- its bit pattern (int, uint16_t, int64_t, float, double and so on), or a std::string.
pub data Field : Type 0 where
  boolean : Bool → Field
  pod : ℕ → ℕ → Field
  string : List ℕ → Field

pub data Shape : Type 0 where
  a_boolean : Shape
  a_pod : ℕ → Shape
  a_string : Shape

abbrev pub shape : Field → Shape
shape (boolean b) = a_boolean
shape (pod width value) = a_pod width
shape (string s) = a_string

unfoldable pub write_field : Field → Pickle → Option Pickle
write_field (boolean b) p = write_bool b p
write_field (pod width value) p = write_pod width value p
write_field (string s) p = write_string s p

unfoldable pub read_field : Shape → PickleIterator → Option Field × PickleIterator
read_field a_boolean it = let (v, next) = read_bool it in (Option.map boolean v, next)
read_field (a_pod width) it = let (v, next) = read_pod width it in (Option.map (pod width) v, next)
read_field a_string it = let (v, next) = read_string it in (Option.map string v, next)

unfoldable pub write_fields : List Field → Pickle → Option Pickle
write_fields [] p = some p
write_fields (f ∷ fs) p = write_field f p >>= write_fields fs

unfoldable pub read_fields : List Shape → PickleIterator → Option (List Field) × PickleIterator
read_fields [] it = (some [], it)
read_fields (s ∷ ss) it =
    let (f, next) = read_field s it in
    let (fs, last) = read_fields ss next in (f >>= (λ v. fs >>= (λ vs. some (v ∷ vs))), last)

-- A value fits its type, and a string its int length.
abbrev pub IsFit : Field → Type 0
IsFit (boolean b) = Unit {0}
IsFit (pod width value) = (value < 256 ^ width) × (width ≤ 8)
IsFit (string s) = length s < 2 ^ 31

-- The bytes of a value in the payload.
abbrev pub encoding : Field → List ℕ
encoding (boolean b) = padded (le_bytes 4 (if b then 1 else 0))
encoding (pod width value) = padded (le_bytes width value)
encoding (string s) = padded (le_bytes 4 (length s)) ++ padded s

abbrev pub fill : List ℕ → List ℕ
fill bytes = replicate (align_int (length bytes) 4 - length bytes) 0

abbrev pub encodings : List Field → List ℕ
encodings [] = []
encodings (f ∷ fs) = encoding f ++ encodings fs

abbrev pub Written : Option Pickle → List ℕ → List ℕ → ℕ → Type 0
Written r extra contents header_size =
    (q : Pickle) × (r ≡ some q) × Holds q extra contents × (q.header_size ≡ header_size)

pub write_pod-Holds :
    (width value : ℕ) (p : Pickle) (extra contents : List ℕ)
    → Holds p extra contents
    → length contents + width + 4 ≤ uint32_mod
    → Written
        (write_pod width value p)
        extra
        (contents ++ padded (le_bytes width value))
        p.header_size
unfolding write_pod
write_pod-Holds width value p extra contents v small =
    write_bytes_common-Holds (le_bytes width value) p extra contents v
      (omega (arith, length-le_bytes width value))

pub length-padded_pod :
    (width value : ℕ) → width ≤ 8 → length (padded (le_bytes width value)) ≡ align_int width 4
length-padded_pod width value h =
    length-padded (le_bytes width value) (omega (arith, length-le_bytes width value))
    ∙ ap (λ (n : ℕ). align_int n 4) (length-le_bytes width value)

pub length-padded_four : (value : ℕ) → length (padded (le_bytes 4 value)) ≡ 4
length-padded_four value = length-padded_pod 4 value (omega arith) ∙ unfold align_int in refl

pub write_string-Holds :
    (s : List ℕ) (p : Pickle) (extra contents : List ℕ)
    → Holds p extra contents
    → length s < 2 ^ 31
    → length contents + length s + 12 ≤ uint32_mod
    → Written (write_string s p) extra (contents ++ encoding (string s)) p.header_size
unfolding write_string write_bytes
write_string-Holds s p extra contents v short small =
    let first = write_pod-Holds 4 (length s) p extra contents v (omega arith) in
    let length4 = length-padded_four (length s) in
    let second =
      write_bytes_common-Holds s first.0 extra (contents ++ padded (le_bytes 4 (length s))) first.2
        (omega (arith, length-append contents (padded (le_bytes 4 (length s))))) in
    let whole : length s % uint32_mod ≡ length s = omega arith in
    let positive : is_negative (length s) ≡ false = ground arith in
    (
      second.0,
      rw (whole, first.1, positive, take_all (length s) s (omega arith)) second.1,
      rw (append_assoc contents (padded (le_bytes 4 (length s))) (padded s)) at second.2,
      second.3 ∙ first.3,
    )

pub length-encoding : (f : Field) → IsFit f → length (encoding f) ≤ 2 ^ 31 + 8
length-encoding (boolean b) h = omega (arith, length-padded_four (if b then 1 else 0))
length-encoding (pod width value) h =
    omega (arith, length-padded_pod width value h.1, align_four width)
length-encoding (string s) h = omega (
  arith,
  length-append (padded (le_bytes 4 (length s))) (padded s),
  length-padded_four (length s),
  length-padded s (omega arith),
  align_four (length s),
)
