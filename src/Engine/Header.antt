-- ===== src/Engine/Header.antt =====
-- internal/engine/header.go and header_auth.go: the header page, its encoding and its authentication.
-- HMAC-SHA256 is the standard library's: a parameter.
pub mod RoundTrip
use hexxladb.Base.{
  ℕ, ◌+◌, List, [], ◌∷◌, ◌++◌, Bool, not, ◌||◌, length, take, get_or, ltb, leb, ◌==◌, if◌then◌else◌,
  Result, ok, err,
}
use hexxladb.Bytes.BigEndian.{be, of_be}
use hexxladb.Bytes.Slices.{codes, slice, bytes_equal}
use hexxladb.Engine.Errors.{
  EngineError, short_header_page, corrupt_header, unsupported_format_version, header_page_size,
}
use hexxladb.Engine.Page.{is_valid_page_size, zeros}
use hexxladb.Engine.Words.{put_all, put_words, get_words}

-- Header
pub record Header : Type 0 where
  pub format_version : ℕ
  pub page_size : ℕ
  pub last_wal_seq : ℕ
  pub next_page_id : ℕ
  pub btree_root : ℕ
  pub features : ℕ
  pub encryption_salt : List ℕ
  pub commit_seq : ℕ
  pub encryption_key_check : List ℕ
  pub max_value_bytes : ℕ
  pub embedding_dim : ℕ
  pub embedding_metric : ℕ
  pub auth_tag : List ℕ
  pub btree_root_generation : ℕ
  pub freelist_head : ℕ
  pub freelist_head_generation : ℕ
  pub freelist_count : ℕ
  pub inline_freelist : List ℕ

-- headerMagic
abbrev pub header_magic : List ℕ
header_magic = codes "HEXXLADB"

-- headerPrefixSize
abbrev pub header_prefix_size : ℕ
header_prefix_size = 512

-- HeaderInlineFreelistCapacity
abbrev pub header_inline_freelist_capacity : ℕ
header_inline_freelist_capacity = 40

-- HeaderInlineFreelistOffset
abbrev pub header_inline_freelist_offset : ℕ
header_inline_freelist_offset = 171

-- The CommitSeq that is written: none before format 2.
abbrev pub stored_commit_seq : Header → ℕ
stored_commit_seq h = if leb 2 h.format_version then h.commit_seq else 0

-- The fields that encodeHeaderPage writes in front of the inline freelist.
abbrev pub header_writes : Header → List (ℕ × List ℕ)
header_writes h =
    (0, header_magic)
    ∷ (8, be 4 h.format_version)
    ∷ (12, be 4 h.page_size)
    ∷ (16, be 8 h.last_wal_seq)
    ∷ (24, be 8 h.next_page_id)
    ∷ (32, be 8 h.btree_root)
    ∷ (40, be 4 h.features)
    ∷ (44, h.encryption_salt)
    ∷ (60, be 8 (stored_commit_seq h))
    ∷ (68, h.encryption_key_check)
    ∷ (100, be 4 h.max_value_bytes)
    ∷ (104, be 2 h.embedding_dim)
    ∷ (106, h.embedding_metric ∷ [])
    ∷ (107, h.auth_tag)
    ∷ (139, be 8 h.btree_root_generation)
    ∷ (147, be 8 h.freelist_head)
    ∷ (155, be 8 h.freelist_head_generation)
    ∷ (163, be 8 h.freelist_count)
    ∷ []

-- encodeHeaderPage, for a page size of at least headerPrefixSize (it panics on a smaller one).
unfoldable pub encode_header_page : Header → List ℕ
encode_header_page h =
    put_words (put_all (zeros h.page_size) (header_writes h)) header_inline_freelist_offset 0
      h.inline_freelist

-- The fields that decodeHeaderPage reads, with a CommitSeq.
abbrev pub read_header : List ℕ → ℕ → Header
read_header page commit = record {
  format_version = of_be (slice page 8 12);
  page_size = of_be (slice page 12 16);
  last_wal_seq = of_be (slice page 16 24);
  next_page_id = of_be (slice page 24 32);
  btree_root = of_be (slice page 32 40);
  features = of_be (slice page 40 44);
  encryption_salt = slice page 44 60;
  commit_seq = commit;
  encryption_key_check = slice page 68 100;
  max_value_bytes = of_be (slice page 100 104);
  embedding_dim = of_be (slice page 104 106);
  embedding_metric = get_or page 106 0;
  auth_tag = slice page 107 139;
  btree_root_generation = of_be (slice page 139 147);
  freelist_head = of_be (slice page 147 155);
  freelist_head_generation = of_be (slice page 155 163);
  freelist_count = of_be (slice page 163 171);
  inline_freelist = get_words header_inline_freelist_capacity page header_inline_freelist_offset 0;
}

-- The last check of decodeHeaderPage.
unfoldable pub check_page_size : Header → Result EngineError Header
check_page_size h = if not (is_valid_page_size h.page_size) then err header_page_size else ok h

-- The switch of decodeHeaderPage on the format version, and the check behind it.
unfoldable pub decode_version : List ℕ → ℕ → Result EngineError Header
decode_version page version =
    if version == 1
    then check_page_size (read_header page 0)
    else if (version == 2) || (version == 3)
    then check_page_size (read_header page (of_be (slice page 60 68)))
    else if ltb 3 version
    then err unsupported_format_version
    else err corrupt_header

-- decodeHeaderPage
unfoldable pub decode_header_page : List ℕ → Result EngineError Header
decode_header_page page =
    if ltb (length page) header_prefix_size
    then err short_header_page
    else if not (bytes_equal (slice page 0 8) header_magic)
    then err corrupt_header
    else decode_version page (of_be (slice page 8 12))

-- hmac.New(sha256.New, key), Write and Sum: by key and message.
module _ (hmac_sha256 : List ℕ → List ℕ → List ℕ) where
  -- authenticateHeader; the sum has the 32 bytes of the tag.
  unfoldable pub authenticate_header : Header → List ℕ → Header
  authenticate_header h key =
      let blank = record h { auth_tag = zeros 32 } in
      record blank {
        auth_tag = take 32 (hmac_sha256 key (take header_prefix_size (encode_header_page blank)));
      }

  -- verifyHeaderAuthentication
  unfoldable pub verify_header_authentication : Header → List ℕ → Bool
  verify_header_authentication h key = bytes_equal h.auth_tag (authenticate_header h key).auth_tag
