-- ===== src/Engine/Wal/Applied.antt =====
-- What a replay comes to, said without its loop: which records reach the callback, and what is returned.
use hexxladb.Base.{
  ℕ, ◌≡◌, refl, ap, ◌∙◌, max, List, [], ◌∷◌, Option, none, some, Bool-cases, true, false, inl, inr,
  arith, ltb, leb, if◌then◌else◌, Result, ok, err,
}
use hexxladb.Engine.Wal.{
  WalConfig, WalError, apply_failed, Outcome, newest, after_apply, parse_and_replay_wal,
}
use hexxladb.Engine.Wal.Records.{IsConfig}
use hexxladb.Engine.Wal.Replay.{LogRecord, AreRecords, write_log, run, replay-write_log}

-- The records with a sequence above a number, in their order.
unfoldable pub newer : ℕ → List LogRecord → List LogRecord
newer last_applied [] = []
newer last_applied (r ∷ rs) =
    let others = newer last_applied rs in if ltb last_applied r.seq then r ∷ others else others

-- The highest sequence of some records, or 0.
unfoldable pub highest_seq : List LogRecord → ℕ
highest_seq [] = 0
highest_seq (r ∷ rs) = max r.seq (highest_seq rs)

module _ {S E : Type 0} where
  -- Goes on with the store where there is no error.
  abbrev pub unless_failed : Option E × S → (S → Option E × S) → Option E × S
  unless_failed (none, s) f = f s
  unless_failed (some e, s) f = (some e, s)

  -- The callback on each of the records in turn, to the first error.
  unfoldable pub apply_all : (ℕ → ℕ → List ℕ → S → Option E × S) → S → List LogRecord → Option E × S
  apply_all apply s [] = (none, s)
  apply_all apply s (r ∷ rs) =
      unless_failed (apply r.seq r.page_id r.payload s) (λ s'. apply_all apply s' rs)

  -- The callback's error, or else the result of the replay.
  abbrev pub conclude : Result (WalError E) ℕ → Option E × S → Outcome S E
  conclude result (none, s) = (result, s)
  conclude result (some e, s) = (err (apply_failed e), s)

module _ {S E : Type 0} (apply : ℕ → ℕ → List ℕ → S → Option E × S) (last_applied : ℕ) where
  applied :
      (result : ℕ → Result (WalError E) ℕ) (m : ℕ) (rs : List LogRecord) (o : Option E × S)
      → ((s : S)
          → run apply last_applied (λ k t. (result k, t)) m s rs
            ≡ conclude
                (result (max m (highest_seq rs)))
                (apply_all apply s (newer last_applied rs)))
      → after_apply (λ s. run apply last_applied (λ k t. (result k, t)) m s rs) o
        ≡ conclude
            (result (max m (highest_seq rs)))
            (unless_failed o (λ s. apply_all apply s (newer last_applied rs)))
  unfolding after_apply
  applied result m rs (none, s) h = h s
  applied result m rs (some e, s) h = refl

  run_lem :
      (result : ℕ → Result (WalError E) ℕ) (m : ℕ) (s : S) (rs : List LogRecord)
      → run apply last_applied (λ k t. (result k, t)) m s rs
        ≡ conclude (result (max m (highest_seq rs))) (apply_all apply s (newer last_applied rs))
  unfolding run newer highest_seq apply_all
  run_lem result m s [] = let same : max m 0 ≡ m = omega arith in rw same refl
  run_lem result m s (r ∷ rs) =
      let same : max (newest m r.seq) (highest_seq rs) ≡ max m (max r.seq (highest_seq rs)) =
        ground arith in
      elim (Bool-cases (leb r.seq last_applied)) [
        | inl old ↦
            let skipped : ltb last_applied r.seq ≡ false = ground (arith, old) in
            rw (old, skipped, ← same) (run_lem result (newest m r.seq) s rs)
        | inr new ↦
            let kept : ltb last_applied r.seq ≡ true = ground (arith, new) in
            rw (new, kept, ← same)
              (applied result (newest m r.seq) rs (apply r.seq r.page_id r.payload s)
                (λ t. run_lem result (newest m r.seq) t rs))
      ]

-- On the file that some records of 64-bit numbers and whole pages make up, a replay calls the callback
-- on each record with a sequence above last_applied, in order, to its first error, and on no other. It
-- returns that error, or else the highest sequence of all the records, and leaves the store as the
-- callback left it.
pub parse_and_replay_wal-write_log :
    {S E : Type 0} (c : WalConfig) (apply : ℕ → ℕ → List ℕ → S → Option E × S) (last_applied : ℕ)
    (rs : List LogRecord) (s : S) {bytes : List ℕ}
    → IsConfig c
    → AreRecords c rs
    → write_log c rs ≡ some bytes
    → parse_and_replay_wal c apply bytes last_applied s
      ≡ conclude (ok (highest_seq rs)) (apply_all apply s (newer last_applied rs))
parse_and_replay_wal-write_log c apply last_applied rs s ok_config h e =
    let same : max 0 (highest_seq rs) ≡ highest_seq rs = omega arith in
    replay-write_log c ok_config apply last_applied rs s h e
    ∙ run_lem apply last_applied ok 0 s rs
    ∙ ap (λ n. conclude (ok n) (apply_all apply s (newer last_applied rs))) same
