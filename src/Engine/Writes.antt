-- ===== src/Engine/Writes.antt =====
-- Pages that a write transaction buffers, where the hooks work.
use hexxladb.Base.{
  ℕ, ◌+◌, ◌%◌, ◌^◌, ◌≤◌, ◌<◌, ◌≡◌, refl, ap, ◌∙◌, List, [], ◌∷◌, ◌++◌, some, inl, inr, Bool,
  Bool-cases, ◌||◌, ◌&&◌, leb, true, false, not, arith, length, ltb, ◌==◌, if◌then◌else◌, count,
  count-append, ok, err,
}
use hexxladb.Engine.Errors.{bad_page_size}
use hexxladb.Engine.Header.{Header}
use hexxladb.Engine.Page.{is_valid_page_size}
use hexxladb.Engine.Pager.{
  Engine, WriteTxn, is_fresh, transformed, dirty_page, header_after_write, with_root_generation,
  with_next_page_id, write_transformed, write_page_with_generation,
}

-- The page size is supported, the hook for writes accepts each page, and the one for reads gives it
-- back.
pub record IsWorking (e : Engine) : Type 0 where
  pub size : is_valid_page_size e.page_size ≡ true
  pub writes :
      (id seq : ℕ) (page : List ℕ)
      → length page ≡ e.page_size
      → (plain : List ℕ) × (e.transform_write id seq page ≡ ok plain)
        × (length plain ≡ e.physical_page_size)
        × (e.transform_read id plain ≡ ok page)

-- A transaction after a buffered write.
abbrev pub after_write : WriteTxn → ℕ → ℕ → List ℕ → WriteTxn
after_write txn id seq plain = record txn {
  pending = txn.pending ++ (seq, id, plain) ∷ [];
  dirty = (id, plain) ∷ txn.dirty;
  hdr = header_after_write txn.hdr id seq;
}

abbrev pub next_seq : Engine → ℕ
next_seq e = (e.next_wal_seq + 1) % 2 ^ 64

pub write_page_lem :
    (e : Engine) (txn : WriteTxn) (id : ℕ) (page plain : List ℕ)
    → 0 < id
    → length page ≡ e.page_size
    → e.transform_write id (next_seq e) page ≡ ok plain
    → length plain ≡ e.physical_page_size
    → write_page_with_generation e txn id page ≡ (
      record e { next_wal_seq = next_seq e },
      ok (after_write txn id (next_seq e) plain, next_seq e),
    )
unfolding write_page_with_generation
write_page_lem e txn id page plain pos whole wrote width =
    let positive : ltb id 1 ≡ false = ground arith in
    let fits : (length page == e.page_size) ≡ true = ground (arith, whole) in
    let full : (length plain == e.physical_page_size) ≡ true = ground (arith, width) in
    let moved = record e { next_wal_seq = next_seq e } in
    rw (positive, fits)
      (ap (write_transformed moved txn id (next_seq e)) wrote
        ∙ ap
            (λ b.
              if not b
              then (moved, err bad_page_size)
              else (moved, ok (after_write txn id (next_seq e) plain, next_seq e)))
            full)

-- What writes to the pages ids leave as it was.
pub record Keeps (ids : List ℕ) (txn w : WriteTxn) : Type 0 where
  pub grows : txn.hdr.next_page_id ≤ w.hdr.next_page_id
  pub inline : w.hdr.inline_freelist ≡ txn.hdr.inline_freelist
  pub version : w.hdr.format_version ≡ txn.hdr.format_version
  pub root : w.hdr.btree_root ≡ txn.hdr.btree_root
  pub others : (x : ℕ) → count x ids ≡ 0 → dirty_page w.dirty x ≡ dirty_page txn.dirty x
  pub free_ids : w.free_page_ids ≡ txn.free_page_ids
  pub free_set : w.free_page_set ≡ txn.free_page_set
  pub metadata : w.freelist_page_ids ≡ txn.freelist_page_ids

pub no_writes-Keeps : (txn : WriteTxn) → Keeps [] txn txn
no_writes-Keeps txn = record {
  grows = omega arith;
  inline = refl;
  version = refl;
  root = refl;
  others = λ x h. refl;
  free_ids = refl;
  free_set = refl;
  metadata = refl;
}

with_root_generation_lem :
    (b : Bool) (hdr : Header) (seq : ℕ)
    → ((with_root_generation b hdr seq).next_page_id ≡ hdr.next_page_id)
      × ((with_root_generation b hdr seq).inline_freelist ≡ hdr.inline_freelist)
      × ((with_root_generation b hdr seq).format_version ≡ hdr.format_version)
      × ((with_root_generation b hdr seq).btree_root ≡ hdr.btree_root)
with_root_generation_lem true hdr seq = (refl, refl, refl, refl)
with_root_generation_lem false hdr seq = (refl, refl, refl, refl)

with_next_page_id_lem :
    (b : Bool) (hdr : Header) (next : ℕ)
    → b ≡ ltb hdr.next_page_id next
    → (hdr.next_page_id ≤ (with_next_page_id b hdr next).next_page_id)
      × ((with_next_page_id b hdr next).inline_freelist ≡ hdr.inline_freelist)
      × ((with_next_page_id b hdr next).format_version ≡ hdr.format_version)
      × ((with_next_page_id b hdr next).btree_root ≡ hdr.btree_root)
with_next_page_id_lem true hdr next e = (ground (arith, e), refl, refl, refl)
with_next_page_id_lem false hdr next e = (omega arith, refl, refl, refl)

header_after_write-grows :
    (hdr : Header) (id seq : ℕ)
    → (hdr.next_page_id ≤ (header_after_write hdr id seq).next_page_id)
      × ((header_after_write hdr id seq).inline_freelist ≡ hdr.inline_freelist)
      × ((header_after_write hdr id seq).format_version ≡ hdr.format_version)
      × ((header_after_write hdr id seq).btree_root ≡ hdr.btree_root)
header_after_write-grows hdr id seq =
    let rooted = with_root_generation (id == hdr.btree_root) hdr seq in
    let (next, inline, version, root) = with_root_generation_lem (id == hdr.btree_root) hdr seq in
    let (grows, inline', version', root') =
      with_next_page_id_lem (ltb rooted.next_page_id ((id + 1) % 2 ^ 64)) rooted ((id + 1) % 2 ^ 64)
        refl in
    (omega (arith, next, grows), inline' ∙ inline, version' ∙ version, root' ∙ root)

pub after_write-Keeps :
    (ids : List ℕ) (start txn : WriteTxn) (id seq : ℕ) (plain : List ℕ)
    → Keeps ids start txn
    → Keeps (id ∷ ids) start (after_write txn id seq plain)
after_write-Keeps ids start txn id seq plain kept =
    let (grows, inline, version, root) = header_after_write-grows txn.hdr id seq in
    record {
      grows = omega (arith, kept.grows, grows);
      inline = inline ∙ kept.inline;
      version = version ∙ kept.version;
      root = root ∙ kept.root;
      others = λ x outside.
          let other : (id == x) ≡ false = ground (arith, outside) in
          ap (λ b. if b then some plain else dirty_page txn.dirty x) other
          ∙ kept.others x (ground (arith, outside));
      free_ids = kept.free_ids;
      free_set = kept.free_set;
      metadata = kept.metadata;
    }

pub Keeps-trans :
    (ids others : List ℕ) (txn v w : WriteTxn)
    → Keeps ids txn v
    → Keeps others v w
    → Keeps (ids ++ others) txn w
Keeps-trans ids others txn v w k l = record {
  grows = omega (arith, k.grows, l.grows);
  inline = l.inline ∙ k.inline;
  version = l.version ∙ k.version;
  root = l.root ∙ k.root;
  others = λ x h.
      l.others x (omega (arith, h, count-append x ids others))
      ∙ k.others x (omega (arith, h, count-append x ids others));
  free_ids = l.free_ids ∙ k.free_ids;
  free_set = l.free_set ∙ k.free_set;
  metadata = l.metadata ∙ k.metadata;
}

-- A page that the hook for reads gives back, and that is not the root of the header.
pub transformed_lem :
    (e : Engine) (hdr : Header) (id : ℕ) (page plain : List ℕ)
    → (id == hdr.btree_root) ≡ false
    → length page ≡ e.page_size
    → e.transform_read id plain ≡ ok page
    → transformed e hdr id plain ≡ ok page
unfolding transformed
transformed_lem e hdr id page plain no_root whole back =
    let fresh : is_fresh e hdr id plain ≡ true =
      elim (Bool-cases (not e.header_mac_enabled || (id == 0))) [
        | inl unchecked ↦ rw unchecked
        | inr checked ↦ rw (checked, no_root)
      ] in
    let size : (leb 1 id && not (length page == e.page_size)) ≡ false = ground (arith, whole) in
    rw (fresh, back, size)
