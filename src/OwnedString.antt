-- ===== src/OwnedString.antt =====
-- The owned strings of src/string/string.c. A string's storage is a function from positions to bytes, of
-- which those up to `capacity` exist; `none` is a NULL `data`. What the allocator returns is an argument
-- of an operation, the bytes that the memory holds or `none` for NULL. A view that an operation takes is
-- outside of the string's storage, or begins in it. `fault` is an access through NULL.
pub mod Memory
pub mod Types
pub mod Reserve
pub mod Edit
mod Replace
pub mod Contents
pub mod Reserved
pub mod Filled
pub mod Append
pub mod Insert
pub mod Change
pub mod Replaced
pub mod Succeeds
mod Tests
