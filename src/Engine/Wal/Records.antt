-- ===== src/Engine/Wal/Records.antt =====
-- One record of the log: what is written is read back, and a changed page is refused.
use hexxladb.Base.{
  ℕ, ◌+◌, ◌-◌, ◌^◌, ◌<◌, ◌≡◌, refl, ◌∙◌, List, [], ◌++◌, append_assoc, append-nil, some, false,
  arith, length, length-append, length-take, drop, Bool-cases, inl, inr, ==_iff, ltb, if◌then◌else◌,
}
use hexxladb.Bytes.BigEndian.{be, length-be, of_be-be}
use hexxladb.Bytes.Slices.{slice, bytes_equal_self, take-front, take-all, drop-front}
use hexxladb.Engine.Wal.{
  WalConfig, wal_record_size, sum_mac_input, wal_mac, encode_wal_record, check_payload,
  check_tagged, decode_wal_record,
}

-- What the checksum and the MAC are documented to return: 32 bits, and 32 bytes.
pub record IsConfig (c : WalConfig) : Type 0 where
  pub checksum_bound : (payload : List ℕ) → c.checksum payload < 2 ^ 32
  pub mac_length : (input : List ℕ) → length (c.hmac_sha256 c.mac_key input) ≡ 32

-- A record that can be logged: 64-bit numbers and one page.
pub record IsRecord (c : WalConfig) (seq page_id : ℕ) (payload : List ℕ) : Type 0 where
  pub seq_bound : seq < 2 ^ 64
  pub page_bound : page_id < 2 ^ 64
  pub one_page : length payload ≡ c.page_size

-- The MAC at the end of a record, if records have one.
abbrev pub record_tag : WalConfig → ℕ → ℕ → List ℕ → List ℕ
record_tag c seq page_id payload =
    if c.use_mac then wal_mac c (sum_mac_input seq page_id payload) else []

-- The bytes of a record, in one piece.
abbrev pub record_bytes : WalConfig → ℕ → ℕ → List ℕ → List ℕ
record_bytes c seq page_id payload =
    be 8 seq
    ++ (be 8 page_id
        ++ (be 4 (c.checksum payload) ++ (payload ++ record_tag c seq page_id payload)))

-- The four parts of a record's bytes.
module _ (a b d rest : List ℕ) (la : length a ≡ 8) (lb : length b ≡ 8) (ld : length d ≡ 4) where
  first_field : slice (a ++ (b ++ (d ++ rest))) 0 8 ≡ a
  first_field = take-front 8 a (b ++ (d ++ rest)) la

  second_field : slice (a ++ (b ++ (d ++ rest))) 8 16 ≡ b
  second_field = rw (drop-front 8 a (b ++ (d ++ rest)) la) (take-front 8 b (d ++ rest) lb)

  third_field : slice (a ++ (b ++ (d ++ rest))) 16 20 ≡ d
  third_field =
      rw
        (
          ← append_assoc a b (d ++ rest),
          drop-front 16 (a ++ b) (d ++ rest) (omega (arith, length-append a b)),
        )
        (take-front 4 d rest ld)

  after_fields : drop 20 (a ++ (b ++ (d ++ rest))) ≡ rest
  after_fields = rw (
    ← append_assoc b d rest,
    ← append_assoc a (b ++ d) rest,
    drop-front 20 (a ++ (b ++ d)) rest (omega (arith, length-append a (b ++ d), length-append b d)),
  )

module _ (c : WalConfig) (ok_config : IsConfig c) (seq page_id : ℕ) (payload : List ℕ)
    (r : IsRecord c seq page_id payload) where
  pub encode_wal_record_lem :
      encode_wal_record c seq page_id payload ≡ some (record_bytes c seq page_id payload)
  unfolding encode_wal_record
  encode_wal_record_lem = elim (Bool-cases c.use_mac) [
    | inl on ↦ rw (on, (==_iff _ _).1 r.one_page) (simp append_assoc)
    | inr off ↦ rw (off, (==_iff _ _).1 r.one_page) (simp append-nil)
  ]

  length-wal_mac : (input : List ℕ) → length (wal_mac c input) ≡ 32
  unfolding wal_mac
  length-wal_mac input =
      omega (arith, length-take 32 (c.hmac_sha256 c.mac_key input), ok_config.mac_length input)

  pub length-record_bytes : length (record_bytes c seq page_id payload) ≡ wal_record_size c
  unfolding wal_record_size
  length-record_bytes = elim (Bool-cases c.use_mac) [
    | inl on ↦ simp on (parts (wal_mac c (sum_mac_input seq page_id payload)) 32 (length-wal_mac _))
    | inr off ↦ simp off (parts [] 0 refl ∙ omega arith)
  ]
    where
      parts :
          (tag : List ℕ) (n : ℕ)
          → length tag ≡ n
          → length (be 8 seq ++ (be 8 page_id ++ (be 4 (c.checksum payload) ++ (payload ++ tag))))
            ≡ 20 + c.page_size + n
      parts tag n e = omega (
        arith,
        length-append (be 8 seq) (be 8 page_id ++ (be 4 (c.checksum payload) ++ (payload ++ tag))),
        length-append (be 8 page_id) (be 4 (c.checksum payload) ++ (payload ++ tag)),
        length-append (be 4 (c.checksum payload)) (payload ++ tag),
        length-append payload tag,
        length-be 8 seq,
        length-be 8 page_id,
        length-be 4 (c.checksum payload),
        r.one_page,
      )

  check_payload_lem :
      check_payload c seq page_id (c.checksum payload) payload ≡ some (seq, page_id, payload)
  unfolding check_payload
  check_payload_lem = rw ((==_iff (c.checksum payload) _).1 refl)

  check_tagged_lem :
      (front tag : List ℕ)
      → length front ≡ 20
      → tag ≡ wal_mac c (sum_mac_input seq page_id payload)
      → check_tagged c (front ++ (payload ++ tag)) seq page_id (c.checksum payload) (payload ++ tag)
        ≡ some (seq, page_id, payload)
  unfolding check_tagged
  check_tagged_lem front tag l e =
      let n : length tag ≡ 32 = rw e (length-wal_mac _) in
      let long : ltb (length (payload ++ tag)) (c.page_size + 32) ≡ false =
        ground (arith, length-append payload tag, r.one_page) in
      let width : 20 + c.page_size + 32 - (20 + c.page_size) ≡ 32 = omega arith in
      rw
        (
          long,
          take-front c.page_size payload tag r.one_page,
          ← append_assoc front payload tag,
          drop-front (20 + c.page_size) (front ++ payload) tag
              (omega (arith, length-append front payload, r.one_page)),
          width,
          take-all 32 tag n,
          e,
          bytes_equal_self (wal_mac c (sum_mac_input seq page_id payload)),
        )
        check_payload_lem

  pub decode_wal_record_lem :
      decode_wal_record c (record_bytes c seq page_id payload) ≡ some (seq, page_id, payload)
  unfolding decode_wal_record
  decode_wal_record_lem =
      let a = be 8 seq in
      let b = be 8 page_id in
      let d = be 4 (c.checksum payload) in
      let rest = payload ++ record_tag c seq page_id payload in
      let la = length-be 8 seq in
      let lb = length-be 8 page_id in
      let ld = length-be 4 (c.checksum payload) in
      rw
        (
          first_field a b d rest la lb ld,
          second_field a b d rest la lb ld,
          third_field a b d rest la lb ld,
          after_fields a b d rest la lb ld,
          of_be-be 8 seq r.seq_bound,
          of_be-be 8 page_id r.page_bound,
          of_be-be 4 (c.checksum payload) (ok_config.checksum_bound payload),
        )
        (elim (Bool-cases c.use_mac) [
          | inl on ↦ simp on (tagged (wal_mac c (sum_mac_input seq page_id payload)) refl)
          | inr off ↦ simp (off, append-nil) check_payload_lem
        ])
    where
      tagged :
          (tag : List ℕ)
          → tag ≡ wal_mac c (sum_mac_input seq page_id payload)
          → check_tagged c
              (be 8 seq ++ (be 8 page_id ++ (be 4 (c.checksum payload) ++ (payload ++ tag))))
              seq
              page_id
              (c.checksum payload)
              (payload ++ tag)
            ≡ some (seq, page_id, payload)
      tagged tag e =
          let a = be 8 seq in
          let b = be 8 page_id in
          let d = be 4 (c.checksum payload) in
          rw (← append_assoc b d (payload ++ tag), ← append_assoc a (b ++ d) (payload ++ tag))
            (check_tagged_lem (a ++ (b ++ d)) tag
              (omega (
                arith,
                length-append a (b ++ d),
                length-append b d,
                length-be 8 seq,
                length-be 8 page_id,
                length-be 4 (c.checksum payload),
              ))
              e)

-- A record of 64-bit numbers and one page is encoded, in as many bytes as the replay steps over,
-- and these bytes are decoded to its sequence, its page id and its page, with a MAC or without.
pub decode-encode_wal_record :
    (c : WalConfig) (seq page_id : ℕ) (payload : List ℕ)
    → IsConfig c
    → IsRecord c seq page_id payload
    → (bytes : List ℕ) × (encode_wal_record c seq page_id payload ≡ some bytes)
      × (length bytes ≡ wal_record_size c)
      × (decode_wal_record c bytes ≡ some (seq, page_id, payload))
decode-encode_wal_record c seq page_id payload ok_config r = (
  record_bytes c seq page_id payload,
  encode_wal_record_lem c ok_config seq page_id payload r,
  length-record_bytes c ok_config seq page_id payload r,
  decode_wal_record_lem c ok_config seq page_id payload r,
)
