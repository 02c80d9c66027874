-- ===== src/Engine/Wal.antt =====
-- internal/engine/wal.go: records of the write-ahead log and their replay. CRC-32 and HMAC-SHA256
-- are the standard library's: parameters.
pub mod Records
pub mod Replay
pub mod Termination
pub mod Twice
pub mod Applied
use hexxladb.Base.{
  ℕ, zero, suc, ◌+◌, List, [], ◌∷◌, ◌++◌, Option, none, some, Bool, true, false, not, length, take,
  drop, ltb, leb, ◌==◌, if◌then◌else◌, Result, ok, err,
}
use hexxladb.Bytes.BigEndian.{be, of_be}
use hexxladb.Bytes.Slices.{slice, bytes_equal}

-- What the records are checked with: crc32.ChecksumIEEE, HMAC-SHA256 by key and message, the key,
-- useMAC and pageSize.
pub record WalConfig : Type 0 where
  pub checksum : List ℕ → ℕ
  pub hmac_sha256 : List ℕ → List ℕ → List ℕ
  pub mac_key : List ℕ
  pub use_mac : Bool
  pub page_size : ℕ

-- The size of a record: sequence, page id, checksum and page, and perhaps the MAC.
unfoldable pub wal_record_size : WalConfig → ℕ
wal_record_size c = if c.use_mac then 20 + c.page_size + 32 else 20 + c.page_size

-- sumMACInput
unfoldable pub sum_mac_input : ℕ → ℕ → List ℕ → List ℕ
sum_mac_input seq page_id payload = be 8 seq ++ be 8 page_id ++ payload

-- walMAC
unfoldable pub wal_mac : WalConfig → List ℕ → List ℕ
wal_mac c input = take 32 (c.hmac_sha256 c.mac_key input)

-- encodeWALRecordWithMAC: `none` where it panics on a payload that is not one page.
unfoldable pub encode_wal_record : WalConfig → ℕ → ℕ → List ℕ → Option (List ℕ)
encode_wal_record c seq page_id payload =
    let head = be 8 seq ++ (be 8 page_id ++ (be 4 (c.checksum payload) ++ payload)) in
    if not (length payload == c.page_size)
    then none
    else if c.use_mac
    then some (head ++ wal_mac c (sum_mac_input seq page_id payload))
    else some head

-- The end of the checks on a record: the checksum.
pub check_payload : WalConfig → ℕ → ℕ → ℕ → List ℕ → Option (ℕ × ℕ × List ℕ)
check_payload c seq page_id want_crc payload =
    if c.checksum payload == want_crc then some (seq, page_id, payload) else none

-- The checks on a record that ends in a MAC.
pub check_tagged : WalConfig → List ℕ → ℕ → ℕ → ℕ → List ℕ → Option (ℕ × ℕ × List ℕ)
check_tagged c chunk seq page_id want_crc payload =
    let payload_data = take c.page_size payload in
    let got_tag = slice chunk (20 + c.page_size) (20 + c.page_size + 32) in
    let want_tag = wal_mac c (sum_mac_input seq page_id payload_data) in
    if ltb (length payload) (c.page_size + 32)
    then none
    else if not (bytes_equal got_tag want_tag)
    then none
    else check_payload c seq page_id want_crc payload_data

-- The checks on one record: `none` for ErrCorruptWAL, else sequence, page id and page.
unfoldable pub decode_wal_record : WalConfig → List ℕ → Option (ℕ × ℕ × List ℕ)
decode_wal_record c chunk =
    let seq = of_be (slice chunk 0 8) in
    let page_id = of_be (slice chunk 8 16) in
    let want_crc = of_be (slice chunk 16 20) in
    let payload = drop 20 chunk in
    if c.use_mac
    then check_tagged c chunk seq page_id want_crc payload
    else check_payload c seq page_id want_crc payload

-- Why a replay stops: ErrCorruptWAL, an error of the callback, or the end of the model's fuel.
pub data WalError (E : Type 0) : Type 0 where
  corrupt_wal : WalError E
  apply_failed : E → WalError E
  stuck : WalError E

-- The error or the highest sequence, and the store as the callback left it.
abbrev pub Outcome : Type 0 → Type 0 → Type 0
Outcome S E = Result (WalError E) ℕ × S

abbrev pub newest : ℕ → ℕ → ℕ
newest max_seq seq = if ltb max_seq seq then seq else max_seq

-- The store of type S is what the callback writes to. It keeps what was written before an error.
module _ {S E : Type 0} where
  unfoldable pub after_apply : (S → Outcome S E) → Option E × S → Outcome S E
  after_apply next (none, s) = next s
  after_apply next (some e, s) = (err (apply_failed e), s)

  -- One record of the loop; `next` goes on with the highest sequence and the store.
  pub replay_record :
      (ℕ → ℕ → List ℕ → S → Option E × S)
      → (ℕ → S → Outcome S E)
      → ℕ
      → ℕ
      → S
      → Option (ℕ × ℕ × List ℕ)
      → Outcome S E
  replay_record apply next last_applied max_seq s none = (err corrupt_wal, s)
  replay_record apply next last_applied max_seq s (some (seq, page_id, payload)) =
      if leb seq last_applied
      then next (newest max_seq seq) s
      else after_apply (next (newest max_seq seq)) (apply seq page_id payload s)

  -- The loop of parseAndReplayWALWithMAC over the bytes that are left.
  pub replay_loop :
      WalConfig → (ℕ → ℕ → List ℕ → S → Option E × S) → ℕ → List ℕ → ℕ → ℕ → S → Outcome S E
  replay_loop c apply fuel [] last_applied max_seq s = (ok max_seq, s)
  replay_loop c apply zero (b ∷ bs) last_applied max_seq s = (err stuck, s)
  replay_loop c apply (suc fuel) (b ∷ bs) last_applied max_seq s =
      let rest = drop (wal_record_size c) (b ∷ bs) in
      let next = λ (m : ℕ) (s' : S). replay_loop c apply fuel rest last_applied m s' in
      let chunk = take (wal_record_size c) (b ∷ bs) in
      if ltb (length (b ∷ bs)) (wal_record_size c)
      then (err corrupt_wal, s)
      else replay_record apply next last_applied max_seq s (decode_wal_record c chunk)

  -- parseAndReplayWALWithMAC. Each record has 20 bytes at least, so a round for each byte is enough.
  unfoldable pub parse_and_replay_wal :
      WalConfig → (ℕ → ℕ → List ℕ → S → Option E × S) → List ℕ → ℕ → S → Outcome S E
  parse_and_replay_wal c apply wal_data last_applied s =
      replay_loop c apply (length wal_data) wal_data last_applied 0 s
