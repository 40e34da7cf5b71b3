-- ===== src/Pickle/RoundTrip.antt =====
-- Values read back in the order in which they were written.
use gitrpc.Prelude.{
  ℕ, ◌+◌, ◌^◌, ◌≤◌, ◌<◌, ◌≡◌, refl, sym, ◌∙◌, true, false, some, List, [], ◌∷◌, ◌++◌, append_assoc,
  append-nil, map, arith, if◌then◌else◌, length, All, length-append,
}
use gitrpc.Pickle.Words.{
  uint32_mod, align_int, align_four, le_bytes, le_value, length-le_bytes, le_value-le_bytes,
}
use gitrpc.Pickle.Writer.{Pickle, new}
use gitrpc.Pickle.Iterator.{iterator, read_bool, read_string}
use gitrpc.Pickle.Growth.{Holds, padded, length-padded, new-Holds}
use gitrpc.Pickle.Fields.{reading, IsSmall, read_pod_at, read_bytes_at}
use gitrpc.Pickle.Values.{
  Field, boolean, pod, string, shape, write_field, read_field, write_fields, read_fields, IsFit,
  encoding, fill, encodings, Written, write_pod-Holds, length-padded_pod, length-padded_four,
  write_string-Holds,
}

-- Writing a value appends its encoding.
write_field-Holds :
    (f : Field) (p : Pickle) (extra contents : List ℕ)
    → IsFit f
    → Holds p extra contents
    → length contents + length (encoding f) + 8 ≤ uint32_mod
    → Written (write_field f p) extra (contents ++ encoding f) p.header_size
unfolding write_field
write_field-Holds (boolean b) p extra contents h v small =
    write_pod-Holds 4 (if b then 1 else 0) p extra contents v
      (omega (arith, length-padded_four (if b then 1 else 0)))
write_field-Holds (pod width value) p extra contents h v small =
    write_pod-Holds width value p extra contents v
      (omega (arith, length-padded_pod width value h.1, align_four width))
write_field-Holds (string s) p extra contents h v small =
    write_string-Holds s p extra contents v h (
      omega (
        arith,
        length-append (padded (le_bytes 4 (length s))) (padded s),
        length-padded_four (length s),
        length-padded s (omega arith),
        align_four (length s),
      ))

write_fields-Holds :
    (fs : List Field) (p : Pickle) (extra contents : List ℕ)
    → All IsFit fs
    → Holds p extra contents
    → length contents + length (encodings fs) + 8 ≤ uint32_mod
    → Written (write_fields fs p) extra (contents ++ encodings fs) p.header_size
unfolding write_fields
write_fields-Holds [] p extra contents h v small = (p, refl, rw (append-nil contents) v, refl)
write_fields-Holds (f ∷ fs) p extra contents h v small =
    let first =
      write_field-Holds f p extra contents h.0 v
        (omega (arith, length-append (encoding f) (encodings fs))) in
    let rest = write_fields-Holds fs first.0 extra (contents ++ encoding f) h.1 first.2 (
      omega
        (arith, length-append contents (encoding f), length-append (encoding f) (encodings fs))) in
    (
      rest.0,
      rw first.1 rest.1,
      rw (append_assoc contents (encoding f) (encodings fs)) at rest.2,
      rest.3 ∙ first.3,
    )

read_string_at :
    (s before rest : List ℕ)
    → length s < 2 ^ 31
    → IsSmall before (padded (le_bytes 4 (length s)) ++ (padded s ++ rest))
    → read_string (reading before (padded (le_bytes 4 (length s)) ++ (padded s ++ rest)))
      ≡ (some s, reading ((before ++ padded (le_bytes 4 (length s))) ++ padded s) rest)
unfolding read_string
read_string_at s before rest short small =
    let four = length-padded_four (length s) in
    rw
      (
        read_pod_at 4 before (le_bytes 4 (length s)) (fill (le_bytes 4 (length s)))
            (padded s ++ rest) (sym (length-padded_pod 4 (length s) (omega arith)))
            (length-le_bytes 4 (length s)) small,
        le_value-le_bytes 4 (length s) (omega arith),
      )
      (read_bytes_at (length s) (before ++ padded (le_bytes 4 (length s))) s (fill s) rest
        (sym (length-padded s (omega arith))) refl short
        (omega (
          arith,
          length-append before (padded (le_bytes 4 (length s))),
          length-append (padded (le_bytes 4 (length s))) (padded s ++ rest),
        )))

-- Reading a value where it was written gives it back, and moves past it.
read_field_at :
    (f : Field) (before rest : List ℕ)
    → IsFit f
    → IsSmall before (encoding f ++ rest)
    → read_field (shape f) (reading before (encoding f ++ rest))
      ≡ (some f, reading (before ++ encoding f) rest)
unfolding read_field
read_field_at (boolean true) before rest h small =
    unfold read_bool le_bytes le_value align_int in
    rw (read_pod_at 1 before (1 ∷ []) (0 ∷ 0 ∷ 0 ∷ []) rest refl refl small)
read_field_at (boolean false) before rest h small =
    unfold read_bool le_bytes le_value align_int in
    rw (read_pod_at 1 before (0 ∷ []) (0 ∷ 0 ∷ 0 ∷ []) rest refl refl small)
read_field_at (pod width value) before rest h small = rw (
  read_pod_at width before (le_bytes width value) (fill (le_bytes width value)) rest
      (sym (length-padded_pod width value h.1)) (length-le_bytes width value) small,
  le_value-le_bytes width value h.0,
)
read_field_at (string s) before rest h small = rw (
  append_assoc (padded (le_bytes 4 (length s))) (padded s) rest,
  read_string_at s before rest h
      (rw (append_assoc (padded (le_bytes 4 (length s))) (padded s) rest) at small),
  append_assoc before (padded (le_bytes 4 (length s))) (padded s),
)

read_fields_at :
    (fs : List Field) (before rest : List ℕ)
    → All IsFit fs
    → IsSmall before (encodings fs ++ rest)
    → read_fields (map shape fs) (reading before (encodings fs ++ rest))
      ≡ (some fs, reading (before ++ encodings fs) rest)
unfolding read_fields
read_fields_at [] before rest h small = rw (append-nil before)
read_fields_at (f ∷ fs) before rest h small =
    let small' = rw (append_assoc (encoding f) (encodings fs) rest) at small in
    rw (
      append_assoc (encoding f) (encodings fs) rest,
      read_field_at f before (encodings fs ++ rest) h.0 small',
      read_fields_at fs (before ++ encoding f) rest h.1 (
          omega (
            arith,
            length-append before (encoding f),
            length-append (encoding f) (encodings fs ++ rest),
            small',
          )),
      append_assoc before (encoding f) (encodings fs),
    )

iterator-reading :
    (q : Pickle) (contents : List ℕ) → Holds q [] contents → iterator q ≡ reading [] contents
unfolding iterator
iterator-reading q contents v = rw v.block

-- Whatever values of their types are written to a new pickle, as long as its payload stays at least 8
-- bytes below 4 GB, the writes
-- succeed, and reading the same types in the same order gives the values back and uses up the payload.
pub read_fields-write_fields :
    (fs : List Field)
    → All IsFit fs
    → length (encodings fs) + 8 ≤ uint32_mod
    → (q : Pickle) × (write_fields fs new ≡ some q)
      × ((read_fields (map shape fs) (iterator q)).0 ≡ some fs)
      × ((read_fields (map shape fs) (iterator q)).1.read_index ≡ (iterator q).end_index)
read_fields-write_fields fs h small =
    let w = write_fields-Holds fs new [] [] h new-Holds (omega arith) in
    let e = iterator-reading w.0 (encodings fs) w.2 in
    let r = read_fields_at fs [] [] h (omega (arith, length-append (encodings fs) [])) in
    let r' = rw (append-nil (encodings fs)) at r in
    let all : read_fields (map shape fs) (iterator w.0) ≡ (some fs, reading (encodings fs) []) =
      rw (e, append-nil (encodings fs)) r' in
    (w.0, w.1, rw all, rw (all, e))
