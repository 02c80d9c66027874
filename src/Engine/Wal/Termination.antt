-- ===== src/Engine/Wal/Termination.antt =====
-- A replay reads its file to the end, or to an error.
use hexxladb.Base.{
  ℕ, zero, suc, ◌≤◌, ◌≢◌, List, [], ◌∷◌, Option, none, some, arith, length, length-drop, drop,
  Bool-cases, inl, inr, ltb, leb, err,
}
use hexxladb.Engine.Wal.{
  WalConfig, wal_record_size, stuck, Outcome, newest, after_apply, replay_record, replay_loop,
  parse_and_replay_wal,
}
use hexxladb.Engine.Wal.Replay.{wal_record_size_pos}

module _ {S E : Type 0} (apply : ℕ → ℕ → List ℕ → S → Option E × S) (last_applied : ℕ) where
  after_apply-ne-stuck :
      (next : S → Outcome S E) (o : Option E × S)
      → ((s : S) → (next s).0 ≢ err stuck)
      → (after_apply next o).0 ≢ err stuck
  unfolding after_apply
  after_apply-ne-stuck next (none, s) h = h s
  after_apply-ne-stuck next (some e, s) h = λ p. cc

  record-ne-stuck :
      (next : ℕ → S → Outcome S E) (m : ℕ) (s : S) (o : Option (ℕ × ℕ × List ℕ))
      → ((m' : ℕ) (s' : S) → (next m' s').0 ≢ err stuck)
      → (replay_record apply next last_applied m s o).0 ≢ err stuck
  unfolding replay_record
  record-ne-stuck next m s none h = λ p. cc
  record-ne-stuck next m s (some (seq, page_id, payload)) h =
      elim (Bool-cases (leb seq last_applied)) [
        | inl old ↦ rw old (h (newest m seq) s)
        | inr new ↦ rw new (after_apply-ne-stuck _ (apply seq page_id payload s) (h (newest m seq)))
      ]

  loop-ne-stuck :
      (c : WalConfig) (fuel : ℕ) (bytes : List ℕ) (m : ℕ) (s : S)
      → length bytes ≤ fuel
      → (replay_loop c apply fuel bytes last_applied m s).0 ≢ err stuck
  unfolding replay_loop
  loop-ne-stuck c zero [] m s f = λ p. cc
  loop-ne-stuck c (suc fuel) [] m s f = λ p. cc
  loop-ne-stuck c zero (b ∷ bs) m s f = absurd (omega arith)
  loop-ne-stuck c (suc fuel) (b ∷ bs) m s f =
      let rest = drop (wal_record_size c) (b ∷ bs) in
      let shorter : length rest ≤ fuel =
        omega (arith, length-drop (wal_record_size c) (b ∷ bs), wal_record_size_pos c) in
      let ih = λ (m' : ℕ) (s' : S). loop-ne-stuck c fuel rest m' s' shorter in
      elim (Bool-cases (ltb (length (b ∷ bs)) (wal_record_size c))) [
        | inl short ↦ rw short (λ p. cc)
        | inr whole ↦ rw whole (record-ne-stuck _ m s _ ih)
      ]

  -- On every file, sound or not, and with every callback, the replay ends by its own tests: it
  -- never runs out of the rounds that the model gives it.
  pub replay-ne-stuck :
      (c : WalConfig) (wal_data : List ℕ) (s : S)
      → (parse_and_replay_wal c apply wal_data last_applied s).0 ≢ err stuck
  unfolding parse_and_replay_wal
  replay-ne-stuck c wal_data s = loop-ne-stuck c (length wal_data) wal_data 0 s (omega arith)
