-- ===== src/Lib.antt =====
-- HexxlaDB: an embedded database of cells on a hexagonal lattice.
--
-- A cell has an axial coordinate, which internal/lattice packs into a 128-bit key. internal/index
-- writes byte keys from packed coordinates, tags and source ids, internal/mvcc puts a commit sequence
-- behind a cell key and chooses the version that a reader sees, and internal/engine keeps the keys in
-- an ordered store whose pages are logged before they are written.
--
-- Files:
-- - Base: shared names, lists and Boolean tests over the native numbers, integers, bits, and the
--   results of fallible code. Base/Search: the binary search of sort.Search, as Go's library has it; one
--   round for each index is enough.
-- - Bytes: big-endian numbers and byte order, as encoding/binary and bytes document them. Bytes are
--   natural numbers in a list; a word keeps its bound as a hypothesis.
-- - Lattice/Int64: Go's int and int64 as integers, with the wrap-around of each operation.
-- - Lattice/Coord: internal/lattice/coord.go and neighbors.go; Coord.Cube is `to_cube`.
-- - Lattice/PackedCoord, Lattice/Packed: internal/lattice/packed.go and bounds.go. Pack and Unpack
--   return an Option, `none` for ErrCoordOutOfRange. The loops of mortonPack63 (three rounds), of
--   mortonUnpack63 (21) and of init (7) run as often as in the code.
-- - Lattice/Ring: internal/lattice/ring.go and the slices of walk.go (Ring/Packed, Ring/Keys). A loop
--   over a radius has its rounds as an argument. Ring/Seq: the iterators of both files, with yield as
--   a function on a state. WalkRingsCoordPacked and WalkRingsPacked return an Option, `none` where make
--   panics; how many bytes the runtime can allocate is a parameter.
-- - Index/Cell: internal/index/cell_key.go and cell_version.go. A key function with an error returns
--   a Result.
-- - Index/Segment, Index/Tag: internal/index/tag_key.go, source_key.go and secondary_segment.go. The
--   two families of keys share their code up to the prefix, the length bound and the error.
-- - Index/Facet: internal/index/facet_key.go. A facet number is a byte.
-- - Mvcc: internal/mvcc/version_suffix_cell_key.go; the loop of SelectVisible is `best_loop`.
-- - Engine/Wal: internal/engine/wal.go. CRC-32 and HMAC-SHA256 are parameters (a WalConfig); what is
--   used of them is their output width, in IsConfig. The callback of a replay is a function on a store
--   of any type. The replay loop has one round for each byte of the file, and a record has 20 bytes at
--   least, so that it never runs out. Wal/Applied says what a replay comes to without its loop.
-- - Engine/Errors: the errors of the engine's pages, one constructor for each message.
-- - Engine/Page, Engine/Words, Engine/NodeHeader: internal/engine/const.go, and how fields and words are
--   written into a page that is made zero. A page is a list of bytes.
-- - Engine/Leaf, Engine/Internal: internal/engine/btree_page.go. The loops over entries have their
--   number of rounds from the page. internalPickChild and leafKeyIndex are binary searches.
-- - Engine/Header: internal/engine/header.go and header_auth.go; an array is a list of its length.
-- - Engine/Pager, Engine/Writes: page_offset.go, and of engine.go and writetxn.go in internal/engine the
--   pages that a write transaction reads and writes; its header is the visible one. The hooks that transform a page are parameters;
--   what is used of them is that a written page is read back (IsWorking). The primary file is a
--   function from page ids, the map of dirty pages a list, last write first, and the pooled buffers are
--   large enough.
-- - Engine/FreelistPage, Engine/Freelist: internal/engine/freelist.go, and allocPageID of btree.go. A
--   transaction is active; the maps that stand for sets are lists. IsOwned says that each page has one
--   owner. The loop that loads a freelist runs on fuel, of which one more than there are page ids is
--   enough, since it sees no page twice.
-- - Engine/Overflow: internal/engine/overflow.go, in a write transaction. The loops over a chain run on
--   fuel, of which one more than the chain has pages is enough; on a cycle no fuel is.
-- - Engine/Reclaim: internal/engine/reclaim.go, as far as ReclaimTail changes its write transaction. The
--   loop recurses on its target.
-- - Tests: runs on small inputs.
--
-- Go's int is taken as 64 bits wide, and a slice as a value: no code modelled here writes to a slice
-- that another part still holds.
--
-- Not modelled: the B-tree over its pages, the truncation of the file, the page cache, commits and
-- the recovery of a batch in internal/engine, the other keys of internal/index, fields of view and
-- levels of internal/lattice, internal/record, internal/views, internal/changelog,
-- internal/pathfind, and the transactions of the root package. internal/hnsw and the vector
-- distances are floating-point code, internal/fsutil, cmd and examples are I/O.
mod Base
pub mod Bytes
pub mod Lattice
pub mod Index
pub mod Mvcc
pub mod Engine
mod Tests
