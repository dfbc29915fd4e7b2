-- ===== src/Lib.antt =====
-- Verification of ceasy, a C framework for web applications that renders on the server.
--
-- A request's method and path go to the router, which chooses a route by its pattern and calls the
-- route's guard and handler on a context. Paths, segments and parameters are views: an address and a
-- length, into memory that something else owns. The memory of a request comes from an arena, which is
-- marked and restored, or reset, between uses.
--
-- Files and code:
-- Prelude: names of the library, Boolean tests on numbers, lists, and integers.
-- StringView: the stringv_* functions of src/string/string.c. A view is `null n`, a NULL pointer with a
--   length, or `view bytes`. Bytes are numbers below 256, and a function returns its out-parameters in
--   an Option. Children: Bytes, Text (equality, prefixes), Search (find and split), Trim, Order
--   (comparison), Parse (numbers).
-- OwnedString: the String functions of src/string/string.c. The storage is a function from positions to
--   bytes; a view is outside of it or begins in it; `fault` is an access through NULL. Children: Memory,
--   Types, Reserve, Edit and Replace (the code), Contents (the invariant and the text), Reserved, Filled,
--   Append, Insert (prepend and copy), Change, Replaced and Succeeds (the proofs).
-- StringMap: src/collection/string_map.c. A table is a function from positions to slots, of which those
--   below the capacity count; SIZE_MAX as an index is `none`. What the allocator frees is recorded in
--   the map. A result `none` of an operation is a loop without an end or an access through NULL.
--   Children: Types, Probe, Rehash, Edit, Values, Lookup (the code), Mask (steps from slot to slot),
--   Valid (the invariant and the entries), Found, Got and Typed (lookups), Placed (a write to a slot),
--   Removed, Free (the loops that look for a free slot), Rehashed, Grown and Prepared (the growth),
--   Stored, Setting, NewKey and Outcomes (setting a value), Cleared, Iterated.
-- Cookies: cookie_token, cookie_parse and context_cookie of src/http/cookie.c, with request_header of
--   src/http/request.c. The cookies of a context are a list. Children: Texts (the
--   name and value in a piece of the header), Header (which header is read), Parsed (the pieces that
--   the loop reads), Calls (the first call and later ones), Answers (what a name is answered).
-- Html: html_escape_append of src/rendering/html.c. Children: Escape (what is written) and Succeeds.
-- HttpMethod: http_method_parse of src/http/request.c.
-- RoutePath: router_path_matches of src/routing/router.c. Children: Segment (one segment), Match (all of
--   them: Pairs for paths of equal lengths, Lengths for others, Fuel for the loop).
-- Router: the route table, router_find and router_dispatch of the same file. A handler and a guard are
--   functions on the context, which has a state of any type beside the fields that the router writes.
--   Children: Find, Dispatch, Guarded (what the guards decide), Effect (what a
--   dispatch does to the context), Table.
-- Arena: src/memory/arena.c. Children: Types and Allocate and Release (the code), Valid (the invariant),
--   Grow and Ready (finding a block), Alloc, Arrays, Mark (with Released and
--   Restore) and Reset.
-- Mime: asset_content_type of src/asset/mime.c. Children: Positions (its two loops) and Extension.
-- Validation: the validators of src/validation/validation.c. Child: Email.
-- The Tests modules have runs of the code at concrete inputs.
--
-- Bounds and fuel: size_t and uint64_t have 64 bits and wrap around where the code lets them; int64_t
-- goes from -2^63 to 2^63 - 1. The loop of router_path_matches has fuel for one round more than the
-- pattern has bytes, and each round moves the pattern's cursor on. The loop of stringv_find has a
-- round for each position that leaves room for the searched bytes. The loop of string_reserve that
-- doubles a capacity ends within 65 rounds, since 2^64 is out of reach, and that of
-- string_replace_build moves its cursor in each round, so two more rounds than the text has bytes are
-- enough. The loop of cookie_parse has a round more than the header has bytes, and each takes a byte
-- off. The loops of the string map have a round for each slot: that is the bound of its search, and
-- the loops for a free slot, which have none, find one within it in a well-formed map. All other loops
-- are recursion on lists.
--
-- Parameters: what malloc returns is an argument of each allocation, `none` for NULL; memory that is
-- freed is in the result. Handlers and guards are arguments, and so are the headers of a request and
-- whether `char` has a sign, and the C library's isspace, of which the theorem about it assumes that
-- an at sign is no space.
--
-- Not modelled: NULL as a router, a context, an arena, a string or a map; the one router that a
-- process has by default is a Router like any other. Bytes that views share with writers. Which memory
-- the owned strings free; the addresses of keys and values in a string map. Requests beyond their
-- method and headers, cookies of a response, sessions, lists of validation errors, templates, models,
-- the database, the server and the command-line tools.
pub mod Prelude
pub mod StringMap
pub mod StringView
pub mod HttpMethod
pub mod RoutePath
pub mod Router
pub mod Arena
pub mod Cookies
pub mod Html
pub mod Mime
pub mod Validation
pub mod OwnedString
