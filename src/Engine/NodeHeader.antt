-- ===== src/Engine/NodeHeader.antt =====
-- The first 24 bytes of a B-tree page, as they are written and as they are read.
use hexxladb.Base.{
  ℕ, ◌+◌, ◌-◌, ◌≤◌, ◌≡◌, refl, sym, List, [], ◌∷◌, ◌++◌, append_assoc, arith, length, length-append,
  get_or,
}
use hexxladb.Bytes.BigEndian.{be, length-be}
use hexxladb.Bytes.Slices.{slice}
use hexxladb.Engine.Page.{btree_node_magic, btree_version, put_next, zeros, skip_zeros}
use hexxladb.Engine.Leaf.{put_node_header}

-- What put_node_header writes.
abbrev pub header_bytes : ℕ → ℕ → ℕ → ℕ → List ℕ
header_bytes kind nk next parent =
    ((((btree_node_magic ++ btree_version ∷ []) ++ kind ∷ []) ++ be 2 nk) ++ be 8 next)
    ++ be 8 parent

-- The header with the bytes up to the first entry.
abbrev pub padded_header : ℕ → ℕ → ℕ → ℕ → List ℕ
padded_header kind nk next parent = header_bytes kind nk next parent ++ zeros 40

module _ (kind nk next parent : ℕ) where
  pub length-padded_header : length (padded_header kind nk next parent) ≡ 64
  unfolding be
  length-padded_header = refl

  pub put_node_header_lem :
      (page_size : ℕ)
      → 64 ≤ page_size
      → put_node_header (zeros page_size) kind nk next parent
        ≡ padded_header kind nk next parent ++ zeros (page_size - 64)
  unfolding put_node_header
  put_node_header_lem page_size h =
      let magic = btree_node_magic in
      let version = magic ++ btree_version ∷ [] in
      let kinds = version ++ kind ∷ [] in
      let counted = kinds ++ be 2 nk in
      let linked = counted ++ be 8 next in
      let whole = linked ++ be 8 parent in
      let end : length (be 2 nk) + (length (be 8 next) + length (be 8 parent)) ≡ 18 =
        omega (arith, length-be 2 nk, length-be 8 next, length-be 8 parent) in
      let e : page_size - 4 - 1 - 1 - length (be 2 nk) - length (be 8 next) - length (be 8 parent)
          ≡ page_size - 24 =
        omega (arith, end) in
      let split : zeros (page_size - 24) ≡ zeros 40 ++ zeros (page_size - 24 - 40) =
        skip_zeros 40 (page_size - 24) (omega arith) in
      let rest : page_size - 24 - 40 ≡ page_size - 64 = omega arith in
      rw
        (
          put_next [] magic page_size 0 refl,
          put_next magic (btree_version ∷ []) (page_size - 4) 4 refl,
          put_next version (kind ∷ []) (page_size - 4 - 1) 5 refl,
          put_next kinds (be 2 nk) (page_size - 4 - 1 - 1) 6 refl,
          put_next counted (be 8 next) (page_size - 4 - 1 - 1 - length (be 2 nk)) 8
              (omega (arith, length-be 2 nk)),
          put_next linked (be 8 parent)
              (page_size - 4 - 1 - 1 - length (be 2 nk) - length (be 8 next)) 16
              (omega (arith, length-append counted (be 8 next), length-be 2 nk, length-be 8 next)),
          e,
          split,
          rest,
        )
        (sym (append_assoc whole (zeros 40) (zeros (page_size - 64))))

  module _ (rest : List ℕ) where
    pub magic_field : slice (padded_header kind nk next parent ++ rest) 0 4 ≡ btree_node_magic
    magic_field = refl

    pub version_field : get_or (padded_header kind nk next parent ++ rest) 4 0 ≡ btree_version
    version_field = refl

    pub kind_field : get_or (padded_header kind nk next parent ++ rest) 5 0 ≡ kind
    kind_field = refl

    pub count_field : slice (padded_header kind nk next parent ++ rest) 6 8 ≡ be 2 nk
    unfolding be
    count_field = refl

    pub next_field : slice (padded_header kind nk next parent ++ rest) 8 16 ≡ be 8 next
    unfolding be
    next_field = refl

    pub parent_field : slice (padded_header kind nk next parent ++ rest) 16 24 ≡ be 8 parent
    unfolding be
    parent_field = refl
