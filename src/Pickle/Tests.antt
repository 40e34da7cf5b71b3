-- ===== src/Pickle/Tests.antt =====
-- Pickle at concrete values.
use gitrpc.Prelude.{◌≡◌, true, none, some, List, [], ◌∷◌, ◌++◌, map, arith, codes}
use gitrpc.Pickle.Words.{align_int, le_bytes}
use gitrpc.Pickle.Writer.{Pickle, new, resize, capacity_read_only, from_data, data_bytes}
use gitrpc.Pickle.Iterator.{PickleIterator, iterator, read_wstring}
use gitrpc.Pickle.Growth.{Holds, block_of, padded, new-Holds}
use gitrpc.Pickle.Within.{IsWithin, Follows}
use gitrpc.Pickle.Bounds.{Read, after_all, after_all-Follows}
use gitrpc.Pickle.Values.{Field, boolean, pod, string, shape, write_fields, read_fields}
use gitrpc.Pickle.RoundTrip.{read_fields-write_fields}
use gitrpc.Pickle.Copies.{assign-Holds}
use gitrpc.Pickle.Writer.{assign}
use gitrpc.Pickle.Wire.{HasExtra, from_data-data_bytes}
use gitrpc.Pickle.Fields.{reading}
use gitrpc.Pickle.Wide.{read_wstring_overflow}

-- A bool, an int of -2, a string and a uint64_t.
abbrev mixed : List Field
mixed = boolean true ∷ pod 4 0xffff_fffe ∷ string (codes "master") ∷ pod 8 5 ∷ []

read_fields-write_fields_example :
    (q : Pickle) × (write_fields mixed new ≡ some q)
    × ((read_fields (map shape mixed) (iterator q)).0 ≡ some mixed)
    × ((read_fields (map shape mixed) (iterator q)).1.read_index ≡ (iterator q).end_index)
unfolding align_int le_bytes
read_fields-write_fields_example = read_fields-write_fields mixed (omega arith) (omega arith)

-- A payload that declares a string longer than itself.
abbrev hostile : PickleIterator
hostile = record { payload = 200 ∷ 0 ∷ 0 ∷ 0 ∷ 65 ∷ 0 ∷ 0 ∷ 0 ∷ []; read_index = 0; end_index = 8 }

hostile-IsWithin : IsWithin hostile
hostile-IsWithin = omega arith

after_all-Follows_example :
    Follows hostile (after_all (Read.string ∷ Read.wide_string ∷ Read.pod 4 ∷ []) hostile)
after_all-Follows_example =
    after_all-Follows (Read.string ∷ Read.wide_string ∷ Read.pod 4 ∷ []) hostile hostile-IsWithin

new-HasExtra : HasExtra new []
unfolding new resize
new-HasExtra = omega arith

from_data-data_bytes_example : from_data (data_bytes new) ≡ record {
  header = some (block_of [] []);
  header_size = new.header_size;
  capacity_after_header = capacity_read_only;
  write_offset = 0;
}
from_data-data_bytes_example = from_data-data_bytes new [] [] new-Holds new-HasExtra (omega arith)

read_wstring_overflow_example :
    read_wstring (reading [] (padded (le_bytes 4 0x2000_0000) ++ codes "rest"))
    ≡ (none, reading ([] ++ padded (le_bytes 4 0x2000_0000)) (codes "rest"))
unfolding align_int le_bytes
read_wstring_overflow_example =
    read_wstring_overflow 0x2000_0000 [] (codes "rest") (omega arith) (omega arith) (omega arith)

-- A read-only pickle of a longer header is overwritten.
abbrev read_only : Pickle
read_only = record {
  header = some (block_of (1 ∷ 2 ∷ 3 ∷ 4 ∷ []) (9 ∷ 9 ∷ 9 ∷ 9 ∷ []));
  header_size = 8;
  capacity_after_header = capacity_read_only;
  write_offset = 0;
}

assign-Holds_example :
    (q : Pickle) × (assign read_only new ≡ some q)
    × Holds q [] []
    × (q.header_size ≡ new.header_size)
assign-Holds_example = assign-Holds read_only new [] [] new-Holds (omega arith)
