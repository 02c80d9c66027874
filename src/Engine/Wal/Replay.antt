-- ===== src/Engine/Wal/Replay.antt =====
-- A replay runs the callback on the records of the log, in their order.
use hexxladb.Base.{
  ℕ, zero, suc, ◌<◌, ◌≤◌, ◌≡◌, refl, ap, ◌∙◌, List, [], ◌∷◌, ◌++◌, append_assoc, append-nil, Option,
  none, some, false, arith, length, length-append, take, drop, ltb, leb, ok, if◌then◌else◌,
}
use mathlib.Core.Path.{fun_ext}
use hexxladb.Bytes.Slices.{take-front, drop-front}
use hexxladb.Engine.Wal.{
  WalConfig, wal_record_size, encode_wal_record, decode_wal_record, Outcome, newest, after_apply,
  replay_record, replay_loop, parse_and_replay_wal,
}
use hexxladb.Engine.Wal.Records.{
  IsConfig, IsRecord, record_bytes, encode_wal_record_lem, length-record_bytes,
  decode_wal_record_lem,
}

-- A record as it was logged.
pub record LogRecord : Type 0 where
  pub seq : ℕ
  pub page_id : ℕ
  pub payload : List ℕ

abbrev pub AreRecords : WalConfig → List LogRecord → Type 0
AreRecords c [] = Unit
AreRecords c (r ∷ rs) = IsRecord c r.seq r.page_id r.payload × AreRecords c rs

-- A record in front of the records after it.
abbrev pub both : Option (List ℕ) → Option (List ℕ) → Option (List ℕ)
both none rest = none
both (some bytes) none = none
both (some bytes) (some rest) = some (bytes ++ rest)

-- The loop of a commit over its pages in writetxn.go, where no write fails: the file that the
-- encoded records make up.
unfoldable pub write_log : WalConfig → List LogRecord → Option (List ℕ)
write_log c [] = some []
write_log c (r ∷ rs) = both (encode_wal_record c r.seq r.page_id r.payload) (write_log c rs)

-- The same file, where no record is refused.
abbrev pub log_bytes : WalConfig → List LogRecord → List ℕ
log_bytes c [] = []
log_bytes c (r ∷ rs) = record_bytes c r.seq r.page_id r.payload ++ log_bytes c rs

write_log_lem :
    (c : WalConfig)
    → IsConfig c
    → (rs : List LogRecord) → AreRecords c rs
    → write_log c rs ≡ some (log_bytes c rs)
unfolding write_log
write_log_lem c ok_config [] h = refl
write_log_lem c ok_config (r ∷ rs) (hr, h) =
    rw (
      encode_wal_record_lem c ok_config r.seq r.page_id r.payload hr,
      write_log_lem c ok_config rs h,
    )

pub wal_record_size_pos : (c : WalConfig) → 0 < wal_record_size c
unfolding wal_record_size
wal_record_size_pos c = ground arith

module _ {S E : Type 0} (apply : ℕ → ℕ → List ℕ → S → Option E × S) (last_applied : ℕ) where
  -- The callback on the records above last_applied, in order, to the first error; then `finish` with
  -- the highest sequence of all.
  unfoldable pub run : (ℕ → S → Outcome S E) → ℕ → S → List LogRecord → Outcome S E
  run finish max_seq s [] = finish max_seq s
  run finish max_seq s (r ∷ rs) =
      if leb r.seq last_applied
      then run finish (newest max_seq r.seq) s rs
      else after_apply (λ s'. run finish (newest max_seq r.seq) s' rs)
          (apply r.seq r.page_id r.payload s)

record-run :
    {S E : Type 0} (apply : ℕ → ℕ → List ℕ → S → Option E × S) (last_applied : ℕ) (r : LogRecord)
    (rs : List LogRecord) (finish next : ℕ → S → Outcome S E) (m : ℕ) (s : S)
    → ((m' : ℕ) (s' : S) → next m' s' ≡ run apply last_applied finish m' s' rs)
    → replay_record apply next last_applied m s (some (r.seq, r.page_id, r.payload))
      ≡ run apply last_applied finish m s (r ∷ rs)
unfolding replay_record run
record-run apply last_applied r rs finish next m s h =
    ap (λ k. replay_record apply k last_applied m s (some (r.seq, r.page_id, r.payload)))
      (fun_ext λ m'. fun_ext λ s'. h m' s')

module _ {S E : Type 0} (c : WalConfig) (ok_config : IsConfig c)
    (apply : ℕ → ℕ → List ℕ → S → Option E × S) (last_applied : ℕ) where
  loop_step :
      (fuel : ℕ) (bytes chunk rest : List ℕ) (m : ℕ) (s : S)
      → bytes ≡ chunk ++ rest
      → length chunk ≡ wal_record_size c
      → replay_loop c apply (suc fuel) bytes last_applied m s
        ≡ replay_record apply
            (λ m' s'. replay_loop c apply fuel rest last_applied m' s')
            last_applied
            m
            s
            (decode_wal_record c chunk)
  unfolding replay_loop
  loop_step fuel [] chunk rest m s e l =
      absurd (omega (arith, ap length e, length-append chunk rest, wal_record_size_pos c))
  loop_step fuel (b ∷ bs) chunk rest m s e l =
      let whole : ltb (length (b ∷ bs)) (wal_record_size c) ≡ false =
        ground (arith, ap length e, length-append chunk rest) in
      let front : take (wal_record_size c) (b ∷ bs) ≡ chunk =
        rw e (take-front (wal_record_size c) chunk rest l) in
      let back : drop (wal_record_size c) (b ∷ bs) ≡ rest =
        rw e (drop-front (wal_record_size c) chunk rest l) in
      rw (whole, front, back)

  -- The log of some records, and whatever follows it: the records are run, then the rest.
  loop-log_bytes :
      (rs : List LogRecord) (tail : List ℕ) (finish : ℕ → S → Outcome S E)
      → AreRecords c rs
      → ((fuel m : ℕ) (s : S)
          → length tail ≤ fuel
          → replay_loop c apply fuel tail last_applied m s ≡ finish m s)
      → (fuel m : ℕ) (s : S) → length (log_bytes c rs ++ tail) ≤ fuel
      → replay_loop c apply fuel (log_bytes c rs ++ tail) last_applied m s
        ≡ run apply last_applied finish m s rs
  loop-log_bytes [] tail finish h end fuel m s f = unfold run in end fuel m s f
  loop-log_bytes (r ∷ rs) tail finish (hr, h) end zero m s f = absurd (
      omega (
        arith,
        length-append (record_bytes c r.seq r.page_id r.payload ++ log_bytes c rs) tail,
        length-append (record_bytes c r.seq r.page_id r.payload) (log_bytes c rs),
        length-record_bytes c ok_config r.seq r.page_id r.payload hr,
        wal_record_size_pos c,
      ))
  loop-log_bytes (r ∷ rs) tail finish (hr, h) end (suc fuel) m s f =
      let chunk = record_bytes c r.seq r.page_id r.payload in
      let rest = log_bytes c rs ++ tail in
      let size = length-record_bytes c ok_config r.seq r.page_id r.payload hr in
      let enough : length rest ≤ fuel = omega (
        arith,
        length-append (chunk ++ log_bytes c rs) tail,
        length-append chunk (log_bytes c rs),
        length-append (log_bytes c rs) tail,
        size,
        wal_record_size_pos c,
      ) in
      let ih = λ (m' : ℕ) (s' : S). loop-log_bytes rs tail finish h end fuel m' s' enough in
      loop_step fuel (chunk ++ log_bytes c rs ++ tail) chunk rest m s
        (append_assoc chunk (log_bytes c rs) tail) size
      ∙ rw (decode_wal_record_lem c ok_config r.seq r.page_id r.payload hr) (
          record-run apply last_applied r rs finish _ m s
            (λ m' s'. loop-log_bytes rs tail finish h end fuel m' s' enough))

  replay-log_bytes :
      (rs : List LogRecord) (s : S)
      → AreRecords c rs
      → parse_and_replay_wal c apply (log_bytes c rs) last_applied s
        ≡ run apply last_applied (λ m s'. (ok m, s')) 0 s rs
  unfolding parse_and_replay_wal
  replay-log_bytes rs s h =
      rw (← append-nil (log_bytes c rs))
        (loop-log_bytes rs [] _ h loop_end (length (log_bytes c rs ++ [])) 0 s (omega arith))
    where
      loop_end :
          (fuel m : ℕ) (s : S) → 0 ≤ fuel → replay_loop c apply fuel [] last_applied m s ≡ (ok m, s)
      loop_end zero m s h = unfold replay_loop in refl
      loop_end (suc fuel) m s h = unfold replay_loop in refl

  -- On the file that some records of 64-bit numbers and whole pages make up, a replay calls the
  -- callback on the records above last_applied, in order, stops at its first error, and otherwise
  -- returns the highest sequence of all the records.
  pub replay-write_log :
      (rs : List LogRecord) (s : S) {bytes : List ℕ}
      → AreRecords c rs
      → write_log c rs ≡ some bytes
      → parse_and_replay_wal c apply bytes last_applied s
        ≡ run apply last_applied (λ m s'. (ok m, s')) 0 s rs
  replay-write_log rs s {bytes} h e =
      let same : log_bytes c rs ≡ bytes = cc (write_log_lem c ok_config rs h) in
      rw (← same) (replay-log_bytes rs s h)
