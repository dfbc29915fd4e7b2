-- ===== src/StringMap.antt =====
-- src/collection/string_map.c and include/ceasy/collection/string_map.h: a hash map with linear
-- probing. Types has the data, Probe the search for a slot, Rehash the growth of the table, Edit the
-- operations that change a map, Values the values and the setters of one type, and Lookup the
-- operations that read a map. The other children are proofs.
pub mod Types
pub mod Probe
pub mod Mask
pub mod Valid
pub mod Found
pub mod Got
pub mod Placed
pub mod Removed
pub mod Free
pub mod Rehashed
pub mod Grown
pub mod Prepared
pub mod Stored
pub mod Setting
pub mod NewKey
pub mod Outcomes
pub mod Cleared
pub mod Iterated
pub mod Typed
mod Tests
pub mod Rehash
pub mod Edit
pub mod Values
pub mod Lookup
