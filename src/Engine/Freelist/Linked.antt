-- ===== src/Engine/Freelist/Linked.antt =====
-- The metadata pages of a freelist that is committed: each one links to the next.
use hexxladb.Base.{
  ℕ, ◌+◌, ◌^◌, ◌≤◌, ◌<◌, ◌≡◌, refl, ap, ◌∙◌, List, [], ◌∷◌, some, inl, inr, Bool-cases, ==_iff,
  true, false, arith, length, length-take, take, drop, ◌==◌, if◌then◌else◌, count, ok, ◌>>=◌,
}
use hexxladb.Engine.Page.{valid_page_bounds}
use hexxladb.Engine.Pager.{Engine, WriteTxn, dirty_page, write_page_with_generation}
use hexxladb.Engine.Writes.{
  IsWorking, after_write, next_seq, write_page_lem, Keeps, no_writes-Keeps, after_write-Keeps,
}
use hexxladb.Engine.FreelistPage.{
  freelist_page_capacity, encode_freelist_page, page_of, encode_freelist_page_lem, length-page_of,
}
use hexxladb.Engine.Freelist.{write_metadata_page, write_metadata_before, write_metadata}

-- The pages ids hold the external free ids, and each names the next one with its generation.
abbrev pub Linked : Engine → WriteTxn → List ℕ → List ℕ → ℕ → ℕ → Type 0
Linked e w external [] head generation = (head ≡ 0) × (generation ≡ 0)
Linked e w external (id ∷ ids) head generation =
    (head ≡ id)
    × (0 < generation)
    × (generation < 2 ^ 64)
    × ((next : ℕ) × (next_generation : ℕ) × (plain : List ℕ) × (dirty_page w.dirty id ≡ some plain)
        × (e.transform_write id generation (
              page_of e.page_size (take (freelist_page_capacity e.page_size) external) next
                next_generation)
            ≡ ok plain)
        × (e.transform_read id plain
            ≡ ok (
                page_of e.page_size (take (freelist_page_capacity e.page_size) external) next
                  next_generation))
        × Linked e w (drop (freelist_page_capacity e.page_size) external) ids next next_generation)

-- Only the writes to these pages matter.
same-Linked :
    (e : Engine) (v w : WriteTxn) (ids external : List ℕ) (head generation : ℕ)
    → ((x : ℕ) → 0 < count x ids → dirty_page w.dirty x ≡ dirty_page v.dirty x)
    → Linked e v external ids head generation
    → Linked e w external ids head generation
same-Linked e v w [] external head generation same linked = linked
same-Linked e v w (id ∷ ids) external head generation same
      (at, pos, small, (next, next_generation, plain, dirty, wrote, back, others)) =
    (
      at,
      pos,
      small,
      (
        next,
        next_generation,
        plain,
        same id (ground arith) ∙ dirty,
        wrote,
        back,
        same-Linked e v w ids (drop (freelist_page_capacity e.page_size) external) next
            next_generation (λ x has. same x (ground (arith, has))) others,
      ),
    )

-- One more page in front of those that are written.
one_more :
    (e e1 : Engine) (txn w1 : WriteTxn) (rest chunk page ids : List ℕ) (id head generation : ℕ)
    {last : Engine} {w : WriteTxn} {seq : ℕ}
    → write_metadata e txn (freelist_page_capacity e.page_size) rest ids
      ≡ (e1, ok (w1, head, generation))
    → encode_freelist_page e.page_size chunk head generation ≡ ok page
    → write_page_with_generation e1 w1 id page ≡ (last, ok (w, seq))
    → write_metadata_before e.page_size id chunk
        (write_metadata e txn (freelist_page_capacity e.page_size) rest ids)
      ≡ (last, ok (w, id, seq))
one_more e e1 txn w1 rest chunk page ids id head generation later encoded written =
    ap (write_metadata_before e.page_size id chunk) later
    ∙ ap (write_metadata_page e1 w1 id) encoded
    ∙ ap (λ r. (r.0, r.1 >>= λ v. ok (v.0, id, v.1))) written

-- The pages for the metadata are written, and only they; where the counter does not wrap, they are
-- linked.
pub write_metadata_lem :
    (ids : List ℕ) (e : Engine) (txn : WriteTxn) (external : List ℕ)
    → IsWorking e
    → ((x : ℕ) → 0 < count x ids → 0 < x)
    → ((x : ℕ) → count x ids ≤ 1)
    → (seq : ℕ) × (w : WriteTxn) × (head : ℕ) × (generation : ℕ) × (write_metadata e txn
          (freelist_page_capacity e.page_size)
          external
          ids
        ≡ (record e { next_wal_seq = seq }, ok (w, head, generation)))
      × Keeps ids txn w
      × (e.next_wal_seq + length ids < 2 ^ 64
          → (seq ≡ e.next_wal_seq + length ids) × Linked e w external ids head generation)
unfolding write_metadata
write_metadata_lem [] e txn external working pos once =
    (e.next_wal_seq, txn, 0, 0, refl, no_writes-Keeps txn, λ h. (omega arith, (refl, refl)))
write_metadata_lem (id ∷ ids) e txn external working pos once =
    let capacity = freelist_page_capacity e.page_size in
    let (seq, w1, head, generation, later, kept, more) =
      write_metadata_lem ids e txn (drop capacity external) working
        (λ x h. pos x (ground (arith, h))) (λ x. ground (arith, once x)) in
    let e1 = record e { next_wal_seq = seq } in
    let chunk = take capacity external in
    let fits : length chunk ≤ capacity = omega (arith, length-take capacity external) in
    let large : 40 ≤ e.page_size = omega (arith, valid_page_bounds e.page_size working.size) in
    let page = page_of e.page_size chunk head generation in
    let encoded = encode_freelist_page_lem e.page_size chunk head generation large fits in
    let whole = length-page_of e.page_size chunk head generation large fits in
    let (plain, wrote, width, back) = working.writes id (next_seq e1) page whole in
    let written = write_page_lem e1 w1 id page plain (pos id (ground arith)) whole wrote width in
    let here : (id == id) ≡ true = ground arith in
    let alone : count id ids ≡ 0 = ground (arith, once id) in
    (
      next_seq e1,
      after_write w1 id (next_seq e1) plain,
      id,
      next_seq e1,
      one_more e e1 txn w1 (drop capacity external) chunk page ids id head generation later encoded
          written,
      after_write-Keeps ids txn w1 id (next_seq e1) plain kept,
      λ small.
          let (at, linked) = more (omega arith) in
          let exact : next_seq e1 ≡ e.next_wal_seq + length (id ∷ ids) = omega (arith, at) in
          (
            exact,
            (
              refl,
              omega (arith, exact),
              omega (arith, exact),
              (
                head,
                generation,
                plain,
                ap (λ b. if b then some plain else dirty_page w1.dirty id) here,
                wrote,
                back,
                same-Linked e w1 (after_write w1 id (next_seq e1) plain) ids
                    (drop capacity external) head generation
                    (λ x has.
                      let other : (id == x) ≡ false = elim (Bool-cases (id == x)) [
                        | inl same ↦ absurd (
                            omega (arith, has, alone, ap (λ y. count y ids) ((==_iff id x).0 same)))
                        | inr apart ↦ apart
                      ] in
                      ap (λ b. if b then some plain else dirty_page w1.dirty x) other)
                    linked,
              ),
            ),
          ),
    )
