-- ===== src/Engine/Overflow.antt =====
-- internal/engine/overflow.go: values that are kept in chains of pages. A write transaction is active.
pub mod Stub
pub mod Chain
pub mod Written
pub mod Read
pub mod Value
pub mod Freed
use hexxladb.Base.{
  ℕ, zero, suc, ◌+◌, ◌-◌, ◌*◌, ◌/◌, ◌%◌, ◌^◌, max, List, [], ◌∷◌, ◌++◌, Option, none, some, Bool,
  true, false, not, ◌&&◌, length, take, drop, get_or, ltb, leb, ◌==◌, if◌then◌else◌, Result, ok,
  err, ◌>>=◌,
}
use hexxladb.Bytes.BigEndian.{be, of_be}
use hexxladb.Bytes.Slices.{slice}
use hexxladb.Engine.Errors.{EngineError, page_too_small_for_overflow, overflow_length_mismatch}
use hexxladb.Engine.Page.{put, zeros}
use hexxladb.Engine.Pager.{
  Engine, WriteTxn, read_page, refresh_root_generation, write_page_with_generation,
}
use hexxladb.Engine.Freelist.{alloc_page_ids, release_page_id}

-- overflowStubLen
abbrev pub overflow_stub_len : ℕ
overflow_stub_len = 14

-- overflowPayloadPerPage, for a page of at least 8 bytes.
abbrev pub overflow_payload_per_page : ℕ → ℕ
overflow_payload_per_page page_size = page_size - 8

-- inlineThreshold
unfoldable pub inline_threshold : ℕ → ℕ
inline_threshold page_size = max (page_size / 3) 256

-- isOverflowStub
unfoldable pub is_overflow_stub : List ℕ → Bool
is_overflow_stub val =
    (length val == overflow_stub_len) && (get_or val 0 0 == 255) && (get_or val 1 0 == 79)

-- encodeOverflowStub
unfoldable pub encode_overflow_stub : ℕ → ℕ → List ℕ
encode_overflow_stub logical_len first_page_id =
    put (put (255 ∷ 79 ∷ zeros 12) 2 (be 4 logical_len)) 6 (be 8 first_page_id)

-- decodeOverflowStub
unfoldable pub decode_overflow_stub : List ℕ → ℕ × ℕ
decode_overflow_stub stub = (of_be (slice stub 2 6), of_be (slice stub 6 14))

-- nPages of writeOverflowChain.
abbrev pub chain_pages : ℕ → ℕ → ℕ
chain_pages len chunk_size = max ((len + chunk_size - 1) / chunk_size) 1

-- The ids n, n + 1, ...
abbrev pub ids_from : ℕ → ℕ → List ℕ
ids_from zero n = []
ids_from (suc count) n = n ∷ ids_from count (n + 1)

-- The page ids of writeOverflowChain: from the allocator, or in older formats behind all others.
unfoldable pub chain_ids : ℕ → Engine → WriteTxn → WriteTxn × List ℕ
chain_ids n e txn =
    let hdr = record txn.hdr { next_page_id = (txn.hdr.next_page_id + n) % 2 ^ 64 } in
    let grown = record txn { hdr = refresh_root_generation hdr txn.pending } in
    if txn.hdr.format_version == 3
    then alloc_page_ids n e txn
    else (grown, ids_from n txn.hdr.next_page_id)

-- The first id, or 0 behind the last one.
abbrev pub next_of : List ℕ → ℕ
next_of [] = 0
next_of (id ∷ ids) = id

-- A page of a chain.
abbrev pub chain_page : ℕ → ℕ → List ℕ → List ℕ
chain_page page_size next_id chunk = put (put (zeros page_size) 0 (be 8 next_id)) 8 chunk

-- A step that changes the engine and may fail, and what follows where it succeeds.
abbrev pub and_then :
    {A B : Type 0}
    → Engine × Result EngineError A
    → (Engine → A → Engine × Result EngineError B)
    → Engine × Result EngineError B
and_then (e, err x) f = (e, err x)
and_then (e, ok a) f = f e a

-- The loop of writeOverflowChain over the ids, with the part of the value from off on.
unfoldable pub write_chain :
    Engine → WriteTxn → List ℕ → List ℕ → Engine × Result EngineError WriteTxn
write_chain e txn [] rest = (e, ok txn)
write_chain e txn (id ∷ ids) rest =
    let chunk_size = overflow_payload_per_page e.page_size in
    let page = chain_page e.page_size (next_of ids) (take chunk_size rest) in
    and_then (write_page_with_generation e txn id page)
      (λ e1 w. write_chain e1 w.0 ids (drop chunk_size rest))

-- writeOverflowChain, with the transaction after it.
unfoldable pub write_overflow_chain :
    Engine → WriteTxn → List ℕ → Engine × Result EngineError (WriteTxn × ℕ)
write_overflow_chain e txn value =
    let chunk_size = overflow_payload_per_page e.page_size in
    let ids = chain_ids (chain_pages (length value) chunk_size) e txn in
    if leb e.page_size 8
    then (e, err page_too_small_for_overflow)
    else and_then (write_chain e ids.0 ids.1 value) (λ e1 w. (e1, ok (w, next_of ids.1)))

-- What readOverflowChain takes from a page. Its rounds never read more than the declared length, so that
-- remaining is not negative, where slicing would panic.
abbrev pub chunk_of : List ℕ → ℕ → ℕ → List ℕ
chunk_of page chunk_size remaining =
    if ltb remaining chunk_size then take remaining (drop 8 page) else drop 8 page

-- The loop of readOverflowChain: `none` where the fuel is used up.
unfoldable pub read_loop :
    ℕ → Engine → WriteTxn → ℕ → ℕ → List ℕ → Option (Result EngineError (List ℕ))
read_loop zero e txn pid logical_len result = none
read_loop (suc fuel) e txn pid logical_len result = elim (pid == 0) [
  | true ↦ some (ok result)
  | false ↦ elim (read_page e txn pid) [
    | err x ↦ some (err x)
    | ok page ↦
        let chunk =
          chunk_of page (overflow_payload_per_page e.page_size) (logical_len - length result) in
        read_loop fuel e txn (of_be (slice page 0 8)) logical_len (result ++ chunk)
  ]
]

-- The check behind the loop of readOverflowChain.
abbrev pub checked : ℕ → Option (Result EngineError (List ℕ)) → Option (Result EngineError (List ℕ))
checked logical_len none = none
checked logical_len (some r) = some (
    r >>= λ result.
    if not (length result == logical_len) then err overflow_length_mismatch else ok result)

-- readOverflowChain with fuel for its loop; logicalLen has 32 bits.
unfoldable pub read_overflow_chain :
    ℕ → Engine → WriteTxn → ℕ → ℕ → Option (Result EngineError (List ℕ))
read_overflow_chain fuel e txn first_page_id logical_len =
    checked logical_len (read_loop fuel e txn first_page_id logical_len [])

-- A round of freeOverflowChain behind the read.
abbrev pub free_next : Engine → WriteTxn → ℕ → ℕ → ℕ → Result EngineError (WriteTxn × ℕ × ℕ)
free_next e txn wasted pid next =
    if txn.hdr.format_version == 3
    then (release_page_id e txn pid >>= λ t. ok (t, wasted, next))
    else ok (txn, (wasted + overflow_payload_per_page e.page_size) % 2 ^ 64, next)

-- A round of freeOverflowChain: the transaction, the wasted bytes and the next page.
unfoldable pub free_page : Engine → WriteTxn → ℕ → ℕ → Result EngineError (WriteTxn × ℕ × ℕ)
free_page e txn wasted pid = do
  page ← read_page e txn pid
  free_next e txn wasted pid (of_be (slice page 0 8))

-- freeOverflowChain with fuel for its loop.
unfoldable pub free_overflow_chain :
    ℕ → Engine → WriteTxn → ℕ → ℕ → Option (Result EngineError (WriteTxn × ℕ))
free_overflow_chain zero e txn wasted pid = none
free_overflow_chain (suc fuel) e txn wasted pid = elim (pid == 0) [
  | true ↦ some (ok (txn, wasted))
  | false ↦ elim (free_page e txn wasted pid) [
    | err x ↦ some (err x)
    | ok freed ↦ free_overflow_chain fuel e freed.0 freed.1 freed.2
  ]
]
