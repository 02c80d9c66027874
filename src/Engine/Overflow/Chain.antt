-- ===== src/Engine/Overflow/Chain.antt =====
-- The pages of a chain, as they are written and as they are read.
use hexxladb.Base.{
  ℕ, ◌+◌, ◌-◌, ◌^◌, ◌≤◌, ◌<◌, ◌≡◌, refl, ap, ◌∙◌, List, [], ◌∷◌, ◌++◌, append_assoc, some, false,
  arith, length, length-append, take, drop, ◌==◌, count, ok,
}
use hexxladb.Bytes.BigEndian.{be, of_be, length-be, of_be-be}
use hexxladb.Bytes.Slices.{slice, slice_middle, drop-front}
use hexxladb.Engine.Page.{put, put_next, zeros, length-zeros}
use hexxladb.Engine.Pager.{Engine, WriteTxn, dirty_page, read_dirty_or_disk, read_page}
use hexxladb.Engine.Writes.{transformed_lem}
use hexxladb.Engine.Overflow.{chain_page, next_of}

module _ (page_size next : ℕ) (chunk : List ℕ) (fits : 8 + length chunk ≤ page_size) where
  chain_page_lem :
      chain_page page_size next chunk ≡ be 8 next ++ (chunk ++ zeros (page_size - 8 - length chunk))
  chain_page_lem =
      let la = length-be 8 next in
      let left : page_size - length (be 8 next) - length chunk ≡ page_size - 8 - length chunk =
        omega (arith, la) in
      ap (λ p. put p 8 chunk) (put_next [] (be 8 next) page_size 0 refl)
      ∙ put_next (be 8 next) chunk (page_size - length (be 8 next)) 8 la
      ∙ ap (λ n. (be 8 next ++ chunk) ++ zeros n) left
      ∙ append_assoc (be 8 next) chunk (zeros (page_size - 8 - length chunk))

  pub length-chain_page : length (chain_page page_size next chunk) ≡ page_size
  length-chain_page =
      ap length chain_page_lem
      ∙ omega (
        arith,
        length-append (be 8 next) (chunk ++ zeros (page_size - 8 - length chunk)),
        length-append chunk (zeros (page_size - 8 - length chunk)),
        length-zeros (page_size - 8 - length chunk),
        length-be 8 next,
      )

  pub next-chain_page : next < 2 ^ 64 → of_be (slice (chain_page page_size next chunk) 0 8) ≡ next
  next-chain_page small =
      ap of_be (
        slice_middle _ [] (be 8 next) (chunk ++ zeros (page_size - 8 - length chunk)) 0 8
          chain_page_lem refl (omega (arith, length-be 8 next)))
      ∙ of_be-be 8 next small

  pub payload-chain_page :
      drop 8 (chain_page page_size next chunk) ≡ chunk ++ zeros (page_size - 8 - length chunk)
  payload-chain_page =
      ap (drop 8) chain_page_lem
      ∙ drop-front 8 (be 8 next) (chunk ++ zeros (page_size - 8 - length chunk)) (length-be 8 next)

-- Different ids of 64 bits that are no header and not the transaction's root.
pub record AreWritable (txn : WriteTxn) (ids : List ℕ) : Type 0 where
  pub once : (x : ℕ) → count x ids ≤ 1
  pub in_range : (x : ℕ) → 0 < count x ids → (0 < x) × (x < 2 ^ 64)
  pub no_root : (x : ℕ) → 0 < count x ids → (x == txn.hdr.btree_root) ≡ false

pub read_written :
    (e : Engine) (w : WriteTxn) (id : ℕ) (page plain : List ℕ)
    → 0 < id
    → (id == w.hdr.btree_root) ≡ false
    → length page ≡ e.page_size
    → e.transform_read id plain ≡ ok page
    → dirty_page w.dirty id ≡ some plain
    → read_page e w id ≡ ok page
unfolding read_page
read_written e w id page plain pos no_root whole back dirty =
    let not_header : (id == 0) ≡ false = ground arith in
    rw not_header (
      ap (read_dirty_or_disk e w.hdr id) dirty
      ∙ transformed_lem e w.hdr id page plain no_root whole back)

-- The pages of the chain with these ids hold the value.
abbrev pub Holds : Engine → WriteTxn → List ℕ → List ℕ → Type 0
Holds e w [] value = Unit
Holds e w (id ∷ ids) value =
    (read_page e w id ≡ ok (chain_page e.page_size (next_of ids) (take (e.page_size - 8) value)))
    × Holds e w ids (drop (e.page_size - 8) value)
