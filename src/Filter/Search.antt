-- ===== src/Filter/Search.antt =====
-- internal/filter/search.go: references to search results, the list of sources, and the results that
-- an event carries.
pub mod Reference
pub mod Sources
pub mod Sorting
pub mod Escape
pub mod Results
pub mod Brackets
pub mod Held
