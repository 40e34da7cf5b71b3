-- ===== src/Dispatch/Pump/Samples.antt =====
-- A pipe that fills up, for the tests.
use Prim.Native.Nat.{min}
use gitrpc.Prelude.{ltb, ◌-◌, suc, if◌then◌else◌, Bool, true, false, ℕ, refl}
use gitrpc.Dispatch.Pump.{Pipe}

-- A pipe of 16 bytes, and whether there is an edge.
abbrev pub bytes : Pipe
bytes = record {
  Channel = ℕ × Bool;
  write_byte = λ c. if ltb c.0 16 then (suc c.0, true) else c;
  read_byte = λ c. (min (c.0 - 1) 15, c.1);
  report = λ c. (c.0, false);
  has_edge = λ c. c.1;
  has_room = λ c. ltb c.0 16;
  edge-write_byte = λ c e. rw e refl;
}
