-- ===== src/Engine/Overflow/Written.antt =====
-- The loop that writes a chain: its pages hold the value.
use hexxladb.Base.{
  ℕ, ◌+◌, ◌-◌, ◌≤◌, ◌<◌, ◌≡◌, refl, ap, ◌∙◌, List, [], ◌∷◌, some, true, arith, length, length-take,
  take, drop, ◌==◌, if◌then◌else◌, count, ok,
}
use hexxladb.Engine.Page.{valid_page_bounds}
use hexxladb.Engine.Pager.{Engine, WriteTxn, dirty_page, read_page, transformed}
use hexxladb.Engine.Writes.{
  IsWorking, after_write, next_seq, write_page_lem, Keeps, no_writes-Keeps, Keeps-trans,
  after_write-Keeps,
}
use hexxladb.Engine.Overflow.{chain_page, next_of, and_then, write_chain}
use hexxladb.Engine.Overflow.Chain.{AreWritable, length-chain_page, read_written, Holds}

same-AreWritable :
    (txn w : WriteTxn) (id : ℕ) (ids : List ℕ)
    → w.hdr.btree_root ≡ txn.hdr.btree_root
    → AreWritable txn (id ∷ ids)
    → AreWritable w ids
same-AreWritable txn w id ids root h = record {
  once = λ x. ground (arith, h.once x);
  in_range = λ x has. h.in_range x (ground (arith, has));
  no_root = λ x has. ap (λ r. x == r) root ∙ h.no_root x (ground (arith, has));
}

-- The counter does not matter for reads.
same-Holds :
    (e : Engine) (seq : ℕ) (w : WriteTxn) (ids value : List ℕ)
    → Holds (record e { next_wal_seq = seq }) w ids value
    → Holds e w ids value
unfolding read_page transformed
same-Holds e seq w [] value h = tt
same-Holds e seq w (id ∷ ids) value (here, others) =
    (here, same-Holds e seq w ids (drop (e.page_size - 8) value) others)

pub Holds-same :
    (e : Engine) (seq : ℕ) (w : WriteTxn) (ids value : List ℕ)
    → Holds e w ids value
    → Holds (record e { next_wal_seq = seq }) w ids value
unfolding read_page transformed
Holds-same e seq w [] value h = tt
Holds-same e seq w (id ∷ ids) value (here, others) =
    (here, Holds-same e seq w ids (drop (e.page_size - 8) value) others)

-- Where the hooks work and the ids are writable, the loop writes the chain, and only its pages.
pub write_chain_lem :
    (ids : List ℕ) (e : Engine) (txn : WriteTxn) (value : List ℕ)
    → IsWorking e
    → AreWritable txn ids
    → (seq : ℕ) × (w : WriteTxn) × (write_chain e txn ids value
        ≡ (record e { next_wal_seq = seq }, ok w))
      × Keeps ids txn w
      × Holds e w ids value
unfolding write_chain
write_chain_lem [] e txn value working h = (e.next_wal_seq, txn, refl, no_writes-Keeps txn, tt)
write_chain_lem (id ∷ ids) e txn value working h =
    let chunk = take (e.page_size - 8) value in
    let page = chain_page e.page_size (next_of ids) chunk in
    let large : 4096 ≤ e.page_size = (valid_page_bounds e.page_size working.size).0 in
    let fits : 8 + length chunk ≤ e.page_size =
      omega (arith, length-take (e.page_size - 8) value) in
    let whole = length-chain_page e.page_size (next_of ids) chunk fits in
    let (plain, wrote, width, back) = working.writes id (next_seq e) page whole in
    let one : 0 < count id (id ∷ ids) = ground arith in
    let (pos, small) = h.in_range id one in
    let e1 = record e { next_wal_seq = next_seq e } in
    let txn1 = after_write txn id (next_seq e) plain in
    let first = after_write-Keeps [] txn txn id (next_seq e) plain (no_writes-Keeps txn) in
    let written = write_page_lem e txn id page plain pos whole wrote width in
    let (seq, w, later, kept, holds) =
      write_chain_lem ids e1 txn1 (drop (e.page_size - 8) value)
        (record { size = working.size; writes = working.writes })
        (same-AreWritable txn txn1 id ids first.root h) in
    let alone : count id ids ≡ 0 = ground (arith, h.once id) in
    let here : (id == id) ≡ true = ground arith in
    let dirty : dirty_page w.dirty id ≡ some plain =
      kept.others id alone ∙ ap (λ b. if b then some plain else dirty_page txn.dirty id) here in
    (
      seq,
      w,
      ap (λ r. and_then r (λ e2 v. write_chain e2 v.0 ids (drop (e.page_size - 8) value))) written
          ∙ later,
      Keeps-trans (id ∷ []) ids txn txn1 w first kept,
      (
        read_written e w id page plain pos
            (ap (λ r. id == r) (kept.root ∙ first.root) ∙ h.no_root id one) whole back dirty,
        same-Holds e (next_seq e) w ids (drop (e.page_size - 8) value) holds,
      ),
    )
