-- ===== src/Tests/Wal.antt =====
-- Tests of the write-ahead log: pages of two bytes, a constant checksum and a constant MAC.
use hexxladb.Base.{
  ℕ, ◌+◌, ◌≡◌, ◌≢◌, refl, List, [], ◌∷◌, ◌++◌, Option, none, some, ◌==◌, if◌then◌else◌, true, arith,
  length, ok, err, replicate,
}
use hexxladb.Bytes.BigEndian.{be}
use hexxladb.Engine.Wal.{
  WalConfig, apply_failed, after_apply, wal_mac, stuck, wal_record_size, encode_wal_record,
  decode_wal_record, parse_and_replay_wal,
}
use hexxladb.Engine.Wal.Records.{IsConfig, record_bytes, decode-encode_wal_record}
use hexxladb.Engine.Wal.Replay.{LogRecord, AreRecords, write_log, run, replay-write_log}
use hexxladb.Engine.Wal.Applied.{
  newer, highest_seq, apply_all, conclude, parse_and_replay_wal-write_log,
}
use hexxladb.Engine.Wal.Termination.{replay-ne-stuck}
use hexxladb.Engine.Wal.Twice.{replay-twice}

abbrev config : WalConfig
config = record {
  checksum = λ payload. 7;
  hmac_sha256 = λ key input. replicate 32 9;
  mac_key = 1 ∷ [];
  use_mac = true;
  page_size = 2;
}

config-IsConfig : IsConfig config
config-IsConfig = record { checksum_bound = λ payload. omega arith; mac_length = λ input. refl }

abbrev first : LogRecord
first = record { seq = 4; page_id = 1; payload = 10 ∷ 11 ∷ [] }

abbrev second : LogRecord
second = record { seq = 5; page_id = 2; payload = 12 ∷ 13 ∷ [] }

abbrev log : List LogRecord
log = first ∷ second ∷ []

log-AreRecords : AreRecords config log
log-AreRecords = (
  record { seq_bound = omega arith; page_bound = omega arith; one_page = refl },
  (record { seq_bound = omega arith; page_bound = omega arith; one_page = refl }, tt),
)

abbrev file : List ℕ
file = record_bytes config 4 1 (10 ∷ 11 ∷ []) ++ record_bytes config 5 2 (12 ∷ 13 ∷ [])

file_written : write_log config log ≡ some file
unfolding write_log encode_wal_record be wal_mac
file_written = refl

-- The callback keeps the pages that it is given, the last one first, and refuses page 3.
abbrev keep : ℕ → ℕ → List ℕ → List (List ℕ) → Option ℕ × List (List ℕ)
keep seq page_id payload s = if page_id == 3 then (some 0, s) else (none, payload ∷ s)

abbrev pages : List (List ℕ)
pages = (12 ∷ 13 ∷ []) ∷ []

replayed : parse_and_replay_wal config keep file 4 [] ≡ (ok 5, pages)
unfolding run after_apply
replayed = replay-write_log config config-IsConfig keep 4 log [] log-AreRecords file_written

decode-encode_wal_record_example :
    (bytes : List ℕ) × (encode_wal_record config 4 1 (10 ∷ 11 ∷ []) ≡ some bytes)
    × (length bytes ≡ wal_record_size config)
    × (decode_wal_record config bytes ≡ some (4, 1, 10 ∷ 11 ∷ []))
decode-encode_wal_record_example =
    decode-encode_wal_record config 4 1 (10 ∷ 11 ∷ []) config-IsConfig
      (record { seq_bound = omega arith; page_bound = omega arith; one_page = refl })

parse_and_replay_wal-write_log_example :
    parse_and_replay_wal config keep file 4 []
    ≡ conclude (ok (highest_seq log)) (apply_all keep [] (newer 4 log))
parse_and_replay_wal-write_log_example =
    parse_and_replay_wal-write_log config keep 4 log [] config-IsConfig log-AreRecords file_written

-- The first record is old, and the second one is given to the callback.
concluded : conclude (ok (highest_seq log)) (apply_all keep [] (newer 4 log)) ≡ (ok 5, pages)
unfolding newer highest_seq apply_all
concluded = refl

-- The callback that refuses every page stops the replay at once.
refused :
    parse_and_replay_wal config (λ seq page_id payload n. (some page_id, n + 1)) file 0 0
    ≡ (err (apply_failed 1), 1)
unfolding newer highest_seq apply_all
refused =
    parse_and_replay_wal-write_log config (λ seq page_id payload n. (some page_id, n + 1)) 0 log 0
      config-IsConfig log-AreRecords file_written

replay-ne-stuck_example : (parse_and_replay_wal config keep (file ++ 0 ∷ []) 4 []).0 ≢ err stuck
replay-ne-stuck_example = replay-ne-stuck keep 4 config (file ++ 0 ∷ []) []

replay-twice_example : parse_and_replay_wal config keep file 5 pages ≡ (ok 5, pages)
replay-twice_example =
    replay-twice config keep log 4 [] pages config-IsConfig log-AreRecords file_written replayed
