-- ===== src/Pickle.antt =====
-- Pickle.h, Pickle.cpp and PickleIterator.cpp: binary packing of values and its reader.
pub mod Words
pub mod Writer
pub mod Iterator
pub mod Growth
pub mod Fields
pub mod Within
pub mod Bounds
pub mod Copies
pub mod Values
pub mod RoundTrip
pub mod Wire
pub mod Wide
mod Tests
