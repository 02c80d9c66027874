-- ===== src/Engine/Pager.antt =====
-- internal/engine: page_offset.go, and of engine.go and writetxn.go the pages that a write transaction
-- reads and writes. The hooks that transform pages are the caller's: parameters. The primary file is
-- a function from page ids to the bytes at the offset of the page; the page cache is left out.
use hexxladb.Base.{
  ℕ, zero, suc, ◌+◌, ◌-◌, ◌*◌, ◌/◌, ◌%◌, ◌^◌, ◌≤◌, ◌<◌, ◌≡◌, List, [], ◌∷◌, ◌++◌, Option, none,
  some, Bool, Bool-cases, inl, inr, ok_path, true, false, not, ◌&&◌, ◌||◌, arith, length, ltb, leb,
  ◌==◌, if◌then◌else◌, Result, ok, err, ◌>>=◌,
}
use native.Mathlib.Nat.{mul-le-mul_right}
use hexxladb.Bytes.BigEndian.{of_be}
use hexxladb.Bytes.Slices.{slice}
use hexxladb.Engine.Errors.{EngineError, bad_page_id, bad_page_size, no_page, stale_root_page}
use hexxladb.Engine.Header.{Header, encode_header_page}

-- math.MaxInt64
abbrev pub max_int64 : ℕ
max_int64 = 2 ^ 63 - 1

-- pageByteOffset; the sizes are positive.
unfoldable pub page_byte_offset : ℕ → ℕ → ℕ → Result EngineError ℕ
page_byte_offset page_id page_size physical_page_size =
    let product = (page_id - 1) * physical_page_size in
    let hi = product / 2 ^ 64 in
    let lo = product % 2 ^ 64 in
    if page_id == 0
    then ok 0
    else if not (hi == 0) || ltb max_int64 lo
    then err bad_page_id
    else if ltb (max_int64 - page_size) lo
    then err bad_page_id
    else ok (lo + page_size)

-- What the engine keeps, as far as pages need it; the hooks with the nil checks of hooks.go.
pub record Engine : Type 0 where
  pub page_size : ℕ
  pub physical_page_size : ℕ
  pub transform_write : ℕ → ℕ → List ℕ → Result EngineError (List ℕ)
  pub transform_read : ℕ → List ℕ → Result EngineError (List ℕ)
  pub primary : ℕ → Option (List ℕ)
  pub next_wal_seq : ℕ
  pub page_reuse_enabled : Bool
  pub header_mac_enabled : Bool
  pub visible_header : Header

-- writeTxnState; the map dirty as a list of its writes, last first, and freePageSet as its keys.
pub record WriteTxn : Type 0 where
  pub hdr : Header
  pub pending : List (ℕ × ℕ × List ℕ)
  pub dirty : List (ℕ × List ℕ)
  pub free_page_ids : List ℕ
  pub free_page_set : List ℕ
  pub freelist_page_ids : List ℕ
  pub freelist_dirty : Bool

-- The last write to a page.
abbrev pub dirty_page : List (ℕ × List ℕ) → ℕ → Option (List ℕ)
dirty_page [] id = none
dirty_page ((at, page) ∷ writes) id = if at == id then some page else dirty_page writes id

-- validateRootPageGeneration in a write transaction, whose header is the visible one: whether it passes.
abbrev pub is_fresh : Engine → Header → ℕ → List ℕ → Bool
is_fresh e hdr id physical =
    if not e.header_mac_enabled || (id == 0)
    then true
    else if not (id == hdr.btree_root)
    then true
    else not (ltb (length physical) 8) && (of_be (slice physical 0 8) == hdr.btree_root_generation)

-- pooledTransformRead and the end of readPageFromDisk.
unfoldable pub transformed : Engine → Header → ℕ → List ℕ → Result EngineError (List ℕ)
transformed e hdr id physical =
    if not (is_fresh e hdr id physical)
    then err stale_root_page
    else (e.transform_read id physical >>= λ out.
        if leb 1 id && not (length out == e.page_size) then err bad_page_size else ok out)

-- The page from the primary file.
abbrev pub read_page_from_disk : Engine → Header → ℕ → Option (List ℕ) → Result EngineError (List ℕ)
read_page_from_disk e hdr id none = err no_page
read_page_from_disk e hdr id (some physical) = transformed e hdr id physical

-- The page from the transaction's writes, or else from the primary file.
abbrev pub read_dirty_or_disk : Engine → Header → ℕ → Option (List ℕ) → Result EngineError (List ℕ)
read_dirty_or_disk e hdr id none = read_page_from_disk e hdr id (e.primary id)
read_dirty_or_disk e hdr id (some plain) = transformed e hdr id plain

-- readPagePooled in a write transaction.
unfoldable pub read_page : Engine → WriteTxn → ℕ → Result EngineError (List ℕ)
read_page e txn id =
    if id == 0
    then transformed e txn.hdr 0 (encode_header_page txn.hdr)
    else read_dirty_or_disk e txn.hdr id (dirty_page txn.dirty id)

-- The root's generation after a write.
abbrev pub with_root_generation : Bool → Header → ℕ → Header
with_root_generation true hdr seq = record hdr { btree_root_generation = seq }
with_root_generation false hdr seq = hdr

-- NextPageID after a write to the page in front of next.
abbrev pub with_next_page_id : Bool → Header → ℕ → Header
with_next_page_id true hdr next = record hdr { next_page_id = next }
with_next_page_id false hdr next = hdr

-- What a buffered write changes in the transaction's header.
abbrev pub header_after_write : Header → ℕ → ℕ → Header
header_after_write hdr id seq =
    let rooted = with_root_generation (id == hdr.btree_root) hdr seq in
    let next = (id + 1) % 2 ^ 64 in with_next_page_id (ltb rooted.next_page_id next) rooted next

-- The loop of refreshRootGeneration: the sequence of the last pending write to the root.
abbrev pub last_seq : List (ℕ × ℕ × List ℕ) → ℕ → Option ℕ
last_seq [] root = none
last_seq ((seq, id, plain) ∷ pending) root = elim (last_seq pending root) [
  | some later ↦ some later
  | none ↦ if id == root then some seq else none
]

-- The header with a generation, if there is one.
abbrev pub with_generation : Header → Option ℕ → Header
with_generation hdr none = hdr
with_generation hdr (some seq) = record hdr { btree_root_generation = seq }

-- refreshRootGeneration
unfoldable pub refresh_root_generation : Header → List (ℕ × ℕ × List ℕ) → Header
refresh_root_generation hdr pending =
    if hdr.btree_root == 0
    then record hdr { btree_root_generation = 0 }
    else with_generation hdr (last_seq pending hdr.btree_root)

-- The end of writePageWithGeneration in a write transaction, from the hook's result.
abbrev pub write_transformed :
    Engine
    → WriteTxn
    → ℕ
    → ℕ
    → Result EngineError (List ℕ)
    → Engine × Result EngineError (WriteTxn × ℕ)
write_transformed e txn id seq (err x) = (e, err x)
write_transformed e txn id seq (ok plain) =
    if not (length plain == e.physical_page_size) then (e, err bad_page_size) else (
      e,
      ok (
        record txn {
          pending = txn.pending ++ (seq, id, plain) ∷ [];
          dirty = (id, plain) ∷ txn.dirty;
          hdr = header_after_write txn.hdr id seq;
        },
        seq,
      ),
    )

-- writePageWithGeneration in a write transaction; the counter stays where a write fails.
unfoldable pub write_page_with_generation :
    Engine → WriteTxn → ℕ → List ℕ → Engine × Result EngineError (WriteTxn × ℕ)
write_page_with_generation e txn id page =
    let seq = (e.next_wal_seq + 1) % 2 ^ 64 in
    if ltb id 1
    then (e, err bad_page_id)
    else if not (length page == e.page_size)
    then (e, err bad_page_size)
    else write_transformed (record e { next_wal_seq = seq }) txn id seq
        (e.transform_write id seq page)

pred_mul : (p m : ℕ) → 0 < p → (p - 1) * m + m ≡ p * m
pred_mul zero m h = absurd (omega arith)
pred_mul (suc k) m h = let back : suc k - 1 ≡ k = omega arith in rw back (grind arith)

refused : {x : EngineError} {off : ℕ} → ◌≡◌ {A = Result EngineError ℕ} (err x) (ok off) → ⊥
refused h = cc

page_byte_offset-ok :
    (p page_size physical off : ℕ)
    → page_size < 2 ^ 63
    → 0 < p
    → page_byte_offset p page_size physical ≡ ok off
    → (off ≡ (p - 1) * physical + page_size) × (off < 2 ^ 63)
unfolding page_byte_offset
page_byte_offset-ok p page_size physical off small pos h =
    let product = (p - 1) * physical in
    let not_zero : (p == 0) ≡ false = ground arith in
    elim (Bool-cases (not (product / 2 ^ 64 == 0) || ltb max_int64 (product % 2 ^ 64))) [
      | inl over ↦ absurd (refused (rw (not_zero, over) at h))
      | inr fits ↦ elim (Bool-cases (ltb (max_int64 - page_size) (product % 2 ^ 64))) [
        | inl over ↦ absurd (refused (rw (not_zero, fits, over) at h))
        | inr small_enough ↦
            let reached = ok_path (rw (not_zero, fits, small_enough) at h) in
            let whole : product / 2 ^ 64 ≡ 0 = ground (arith, fits) in
            ground (arith, reached, whole, small_enough)
      ]
    ]

-- For page sizes below 2 ^ 63 and two ids in ascending order that both have an offset: the header
-- page and the first page end before the second page begins, in the arithmetic of 64 bits too.
pub page_byte_offset_apart :
    (p q page_size physical off_p off_q : ℕ)
    → page_size < 2 ^ 63
    → 0 < p
    → p < q
    → page_byte_offset p page_size physical ≡ ok off_p
    → page_byte_offset q page_size physical ≡ ok off_q
    → (page_size ≤ off_p) × (off_p + physical ≤ off_q) × (off_q < 2 ^ 63)
page_byte_offset_apart p q page_size physical off_p off_q small pos lt hp hq =
    let (first, bound_p) = page_byte_offset-ok p page_size physical off_p small pos hp in
    let (second, bound_q) = page_byte_offset-ok q page_size physical off_q small (omega arith) hq in
    let step : p * physical ≤ (q - 1) * physical = mul-le-mul_right physical (omega arith) in
    let next : (p - 1) * physical + physical ≡ p * physical = pred_mul p physical pos in
    (omega arith, omega (arith, step, next), bound_q)
