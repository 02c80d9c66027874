-- ===== src/Engine/Header/RoundTrip.antt =====
-- A header that is encoded is decoded again, and its authentication survives.
use hexxladb.Base.{
  ℕ, ◌+◌, ◌-◌, ◌*◌, ◌^◌, ◌≤◌, ◌<◌, ◌≡◌, ◌⊎◌, inl, inr, refl, sym, ap, ◌∙◌, List, [], ◌++◌,
  append_assoc, true, false, ◌||◌, arith, length, length-append, length-take, take, get_or, ltb,
  ◌==◌, ==_iff, ok,
}
use hexxladb.Bytes.BigEndian.{be, of_be, length-be}
use hexxladb.Bytes.Slices.{slice, bytes_equal, bytes_equal_self}
use hexxladb.Engine.Page.{is_valid_page_size, valid_page_bounds, zeros, length-zeros}
use hexxladb.Engine.Words.{
  put_words, get_words, fields_bytes, words_bytes, AreAdjacent, AllWords, offset_at, bytes_at,
  put_all_lem, length-words_bytes, put_words_lem, get_words_lem, length-fields_bytes, number_at,
  array_at, get_or-take_one,
}
use hexxladb.Engine.Header.{
  Header, header_magic, header_writes, stored_commit_seq, encode_header_page, read_header,
  check_page_size, decode_version, decode_header_page, authenticate_header,
  verify_header_authentication,
}

-- A header of a known format and page size, whose fields are in the range of their Go types.
pub record IsHeader (h : Header) : Type 0 where
  pub known : (1 ≤ h.format_version) × (h.format_version ≤ 3)
  pub size : is_valid_page_size h.page_size ≡ true
  pub seq : h.last_wal_seq < 2 ^ 64
  pub next : h.next_page_id < 2 ^ 64
  pub root : h.btree_root < 2 ^ 64
  pub flags : h.features < 2 ^ 32
  pub salt : length h.encryption_salt ≡ 16
  pub commit : h.commit_seq < 2 ^ 64
  pub key_check : length h.encryption_key_check ≡ 32
  pub max_value : h.max_value_bytes < 2 ^ 32
  pub dim : h.embedding_dim < 2 ^ 16
  pub tag : length h.auth_tag ≡ 32
  pub root_generation : h.btree_root_generation < 2 ^ 64
  pub head : h.freelist_head < 2 ^ 64
  pub head_generation : h.freelist_head_generation < 2 ^ 64
  pub count : h.freelist_count < 2 ^ 64
  pub inline : length h.inline_freelist ≡ 40
  pub words : AllWords h.inline_freelist

-- What a page keeps of a header: format 1 has no CommitSeq.
unfoldable pub stored : Header → Header
stored h = record h { commit_seq = stored_commit_seq h }

check_page_size_lem :
    (h : Header) → is_valid_page_size h.page_size ≡ true → check_page_size h ≡ ok h
unfolding check_page_size
check_page_size_lem h valid = rw valid

module _ (h : Header) (wf : IsHeader h) where
  adjacent : AreAdjacent 0 (header_writes h)
  adjacent = (
    refl,
    (
      refl,
      (
        omega (arith, length-be 4 h.format_version),
        (
          omega (arith, length-be 4 h.page_size),
          (
            omega (arith, length-be 8 h.last_wal_seq),
            (
              omega (arith, length-be 8 h.next_page_id),
              (
                omega (arith, length-be 8 h.btree_root),
                (
                  omega (arith, length-be 4 h.features),
                  (
                    omega (arith, wf.salt),
                    (
                      omega (arith, length-be 8 (stored_commit_seq h)),
                      (
                        omega (arith, wf.key_check),
                        (
                          omega (arith, length-be 4 h.max_value_bytes),
                          (
                            omega (arith, length-be 2 h.embedding_dim),
                            (
                              refl,
                              (
                                omega (arith, wf.tag),
                                (
                                  omega (arith, length-be 8 h.btree_root_generation),
                                  (
                                    omega (arith, length-be 8 h.freelist_head),
                                    (omega (arith, length-be 8 h.freelist_head_generation), tt),
                                  ),
                                ),
                              ),
                            ),
                          ),
                        ),
                      ),
                    ),
                  ),
                ),
              ),
            ),
          ),
        ),
      ),
    ),
  )

  commit_bound : stored_commit_seq h < 2 ^ 64
  commit_bound = ground (arith, wf.commit)

  -- The page behind the fields.
  pad : List ℕ
  pad = zeros (h.page_size - 491)

  body : List ℕ
  body = words_bytes h.inline_freelist ++ pad

  size_of_fields : length (fields_bytes (header_writes h)) ≡ 171
  size_of_fields =
      omega (arith, length-fields_bytes (header_writes h) 0 adjacent, length-be 8 h.freelist_count)

  encode_header_page_lem : encode_header_page h ≡ fields_bytes (header_writes h) ++ body
  unfolding encode_header_page body pad
  encode_header_page_lem =
      let fields = fields_bytes (header_writes h) in
      let left : h.page_size - length fields - 8 * length h.inline_freelist ≡ h.page_size - 491 =
        omega (arith, size_of_fields, wf.inline) in
      ap (λ p. put_words p 171 0 h.inline_freelist)
        (put_all_lem (header_writes h) [] h.page_size 0 refl adjacent)
      ∙ put_words_lem h.inline_freelist fields (h.page_size - length fields) 171 0 size_of_fields
      ∙ ap (λ n. (fields ++ words_bytes h.inline_freelist) ++ zeros n) left
      ∙ append_assoc fields (words_bytes h.inline_freelist) (zeros (h.page_size - 491))

  pub length-encode_header_page : length (encode_header_page h) ≡ h.page_size
  unfolding body pad
  length-encode_header_page =
      ap length encode_header_page_lem
      ∙ omega (
        arith,
        length-append (fields_bytes (header_writes h))
            (words_bytes h.inline_freelist ++ zeros (h.page_size - 491)),
        length-append (words_bytes h.inline_freelist) (zeros (h.page_size - 491)),
        length-zeros (h.page_size - 491),
        length-words_bytes h.inline_freelist,
        size_of_fields,
        wf.inline,
        valid_page_bounds h.page_size wf.size,
      )

  number :
      (i w v : ℕ)
      → i < 18
      → bytes_at (header_writes h) i ≡ be w v
      → v < 256 ^ w
      → of_be (
          slice
            (fields_bytes (header_writes h) ++ body)
            (offset_at (header_writes h) i)
            (offset_at (header_writes h) i + w))
        ≡ v
  number i w v k e b = number_at (header_writes h) i w v body adjacent k e b

  array :
      (i w : ℕ)
      → i < 18
      → length (bytes_at (header_writes h) i) ≡ w
      → slice
          (fields_bytes (header_writes h) ++ body)
          (offset_at (header_writes h) i)
          (offset_at (header_writes h) i + w)
        ≡ bytes_at (header_writes h) i
  array i w k e = array_at (header_writes h) i w body adjacent k e

  inline_words : get_words 40 (fields_bytes (header_writes h) ++ body) 171 0 ≡ h.inline_freelist
  unfolding body
  inline_words =
      ap
        (λ n.
          get_words n (fields_bytes (header_writes h) ++ (words_bytes h.inline_freelist ++ pad)) 171
            0)
        (sym wf.inline)
      ∙ get_words_lem h.inline_freelist (fields_bytes (header_writes h)) pad 171 0 size_of_fields
          wf.words

  read_header_lem :
      (c : ℕ) → read_header (fields_bytes (header_writes h) ++ body) c ≡ record h { commit_seq = c }
  read_header_lem c =
      let page = fields_bytes (header_writes h) ++ body in
      let format_version_read : of_be (slice page 8 12) ≡ h.format_version =
        number 1 4 h.format_version (omega arith) refl (omega (arith, wf.known.1)) in
      let page_size_read : of_be (slice page 12 16) ≡ h.page_size =
        number 2 4 h.page_size (omega arith) refl
          (omega (arith, (valid_page_bounds h.page_size wf.size).1)) in
      let last_wal_seq_read : of_be (slice page 16 24) ≡ h.last_wal_seq =
        number 3 8 h.last_wal_seq (omega arith) refl (wf.seq) in
      let next_page_id_read : of_be (slice page 24 32) ≡ h.next_page_id =
        number 4 8 h.next_page_id (omega arith) refl (wf.next) in
      let btree_root_read : of_be (slice page 32 40) ≡ h.btree_root =
        number 5 8 h.btree_root (omega arith) refl (wf.root) in
      let features_read : of_be (slice page 40 44) ≡ h.features =
        number 6 4 h.features (omega arith) refl (wf.flags) in
      let max_value_bytes_read : of_be (slice page 100 104) ≡ h.max_value_bytes =
        number 10 4 h.max_value_bytes (omega arith) refl (wf.max_value) in
      let embedding_dim_read : of_be (slice page 104 106) ≡ h.embedding_dim =
        number 11 2 h.embedding_dim (omega arith) refl (wf.dim) in
      let btree_root_generation_read : of_be (slice page 139 147) ≡ h.btree_root_generation =
        number 14 8 h.btree_root_generation (omega arith) refl (wf.root_generation) in
      let freelist_head_read : of_be (slice page 147 155) ≡ h.freelist_head =
        number 15 8 h.freelist_head (omega arith) refl (wf.head) in
      let freelist_head_generation_read : of_be (slice page 155 163) ≡ h.freelist_head_generation =
        number 16 8 h.freelist_head_generation (omega arith) refl (wf.head_generation) in
      let freelist_count_read : of_be (slice page 163 171) ≡ h.freelist_count =
        number 17 8 h.freelist_count (omega arith) refl (wf.count) in
      let salt_read : slice page 44 60 ≡ h.encryption_salt = array 7 16 (omega arith) wf.salt in
      let check_read : slice page 68 100 ≡ h.encryption_key_check =
        array 9 32 (omega arith) wf.key_check in
      let tag_read : slice page 107 139 ≡ h.auth_tag = array 13 32 (omega arith) wf.tag in
      let metric_read : get_or page 106 0 ≡ h.embedding_metric =
        get_or-take_one page 106 h.embedding_metric (array 12 1 (omega arith) refl) in
      rw (
        format_version_read, page_size_read, last_wal_seq_read, next_page_id_read, btree_root_read,
        features_read, max_value_bytes_read, embedding_dim_read, btree_root_generation_read,
        freelist_head_read, freelist_head_generation_read, freelist_count_read, salt_read,
        check_read, tag_read, metric_read, inline_words,
      )

  decode_version_lem :
      decode_version (fields_bytes (header_writes h) ++ body) h.format_version ≡ ok (stored h)
  unfolding stored decode_version
  decode_version_lem =
      let page = fields_bytes (header_writes h) ++ body in
      let commit_read : of_be (slice page 60 68) ≡ stored_commit_seq h =
        number 8 8 (stored_commit_seq h) (omega arith) refl commit_bound in
      let v = h.format_version in
      let cases : (v ≡ 1) ⊎ ((v == 1) ≡ false) × (((v == 2) || (v == 3)) ≡ true) =
        ground (arith, wf.known) in
      elim cases [
        | inl e ↦
            let first : (v == 1) ≡ true = (==_iff v 1).1 e in
            let none_stored : 0 ≡ stored_commit_seq h = ground (arith, e) in
            rw first (
              ap check_page_size (read_header_lem 0)
              ∙ check_page_size_lem (record h { commit_seq = 0 }) wf.size
              ∙ ap (λ c. ok (record h { commit_seq = c })) none_stored)
        | inr (other, later) ↦
            rw (other, later)
              (ap (λ c. check_page_size (read_header page c)) commit_read
                ∙ ap check_page_size (read_header_lem (stored_commit_seq h))
                ∙ check_page_size_lem (stored h) wf.size)
      ]

pub decode-encode_header_page :
    (h : Header)
    → IsHeader h
    → (length (encode_header_page h) ≡ h.page_size)
      × (decode_header_page (encode_header_page h) ≡ ok (stored h))
unfolding decode_header_page
decode-encode_header_page h wf =
    let page = fields_bytes (header_writes h) ++ body h wf in
    let size = length-encode_header_page h wf in
    let long : ltb (length page) 512 ≡ false = ground (
      arith,
      ap length (sym (encode_header_page_lem h wf)) ∙ size,
      valid_page_bounds h.page_size wf.size,
    ) in
    let magic : slice page 0 8 ≡ header_magic = array h wf 0 8 (omega arith) refl in
    let version : of_be (slice page 8 12) ≡ h.format_version =
      number h wf 1 4 h.format_version (omega arith) refl (omega (arith, wf.known.1)) in
    (
      size,
      rw (encode_header_page_lem h wf, long, magic, bytes_equal_self header_magic, version)
          (decode_version_lem h wf),
    )

-- A page does not show a CommitSeq that is not stored.
encode-stored :
    (h : Header) (tag : List ℕ)
    → encode_header_page (record (stored h) { auth_tag = tag })
      ≡ encode_header_page (record h { auth_tag = tag })
unfolding encode_header_page stored
encode-stored h tag =
    let twice : stored_commit_seq (stored h) ≡ stored_commit_seq h = ground arith in rw twice

module _ (hmac_sha256 : List ℕ → List ℕ → List ℕ)
    (sum_32 : (key m : List ℕ) → length (hmac_sha256 key m) ≡ 32) where
  authenticate_header-IsHeader :
      (h : Header) (key : List ℕ) → IsHeader h → IsHeader (authenticate_header hmac_sha256 h key)
  unfolding authenticate_header
  authenticate_header-IsHeader h key wf = record {
    known = wf.known;
    size = wf.size;
    seq = wf.seq;
    next = wf.next;
    root = wf.root;
    flags = wf.flags;
    salt = wf.salt;
    commit = wf.commit;
    key_check = wf.key_check;
    max_value = wf.max_value;
    dim = wf.dim;
    tag = omega (
      arith,
      length-take 32
          (hmac_sha256 key (take 512 (encode_header_page (record h { auth_tag = zeros 32 })))),
      sum_32 key (take 512 (encode_header_page (record h { auth_tag = zeros 32 }))),
    );
    root_generation = wf.root_generation;
    head = wf.head;
    head_generation = wf.head_generation;
    count = wf.count;
    inline = wf.inline;
    words = wf.words;
  }

  verify-stored :
      (h : Header) (key : List ℕ)
      → verify_header_authentication hmac_sha256
          (stored (authenticate_header hmac_sha256 h key))
          key
        ≡ true
  unfolding verify_header_authentication authenticate_header stored
  verify-stored h key =
      let blank = record h { auth_tag = zeros 32 } in
      ap
        (λ p.
          bytes_equal (take 32 (hmac_sha256 key (take 512 (encode_header_page blank))))
            (take 32 (hmac_sha256 key (take 512 p))))
        (encode-stored blank (zeros 32))
      ∙ bytes_equal_self (take 32 (hmac_sha256 key (take 512 (encode_header_page blank))))

  -- Where HMAC-SHA256 sums have 32 bytes, and for a header of a known format whose fields are in the
  -- range of their types: an authenticated header that is encoded is decoded, and what is decoded
  -- verifies with the same key, in format 1 too, where the CommitSeq is lost.
  pub verify-decode-authenticate_header :
      (h : Header) (key : List ℕ)
      → IsHeader h
      → (h' : Header) × (decode_header_page
            (encode_header_page (authenticate_header hmac_sha256 h key))
          ≡ ok h')
        × (verify_header_authentication hmac_sha256 h' key ≡ true)
  verify-decode-authenticate_header h key wf =
      let a = authenticate_header hmac_sha256 h key in
      (
        stored a,
        (decode-encode_header_page a (authenticate_header-IsHeader h key wf)).1,
        verify-stored h key,
      )
