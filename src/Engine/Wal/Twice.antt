-- ===== src/Engine/Wal/Twice.antt =====
-- A log that is replayed a second time changes nothing.
use hexxladb.Base.{
  ℕ, ◌≤◌, ◌≡◌, refl, sym, ap, ◌∙◌, List, [], ◌∷◌, Option, none, some, true, arith, Bool-cases, inl,
  inr, leb, ok, max, ok_path,
}
use hexxladb.Engine.Wal.{WalConfig, Outcome, newest, after_apply, parse_and_replay_wal}
use hexxladb.Engine.Wal.Records.{IsConfig}
use hexxladb.Engine.Wal.Replay.{LogRecord, AreRecords, write_log, run, replay-write_log}

-- The highest sequence of some records and m.
highest : ℕ → List LogRecord → ℕ
highest m [] = m
highest m (r ∷ rs) = highest (newest m r.seq) rs

-- The records are not above last_applied.
abbrev AllApplied : ℕ → List LogRecord → Type 0
AllApplied last_applied [] = Unit
AllApplied last_applied (r ∷ rs) = (r.seq ≤ last_applied) × AllApplied last_applied rs

le-highest : (m : ℕ) (rs : List LogRecord) → m ≤ highest m rs
unfolding highest
le-highest m [] = omega arith
le-highest m (r ∷ rs) = ground (arith, le-highest (newest m r.seq) rs)

highest-AllApplied : (l m : ℕ) (rs : List LogRecord) → highest m rs ≤ l → AllApplied l rs
unfolding highest
highest-AllApplied l m [] h = tt
highest-AllApplied l m (r ∷ rs) h =
    (ground (arith, le-highest (newest m r.seq) rs), highest-AllApplied l (newest m r.seq) rs h)

module _ {S E : Type 0} (apply : ℕ → ℕ → List ℕ → S → Option E × S) (last_applied : ℕ) where
  run-applied :
      (finish : ℕ → S → Outcome S E) (m : ℕ) (s : S) (rs : List LogRecord)
      → AllApplied last_applied rs
      → run apply last_applied finish m s rs ≡ finish (highest m rs) s
  unfolding run highest
  run-applied finish m s [] h = refl
  run-applied finish m s (r ∷ rs) (hr, h) =
      let old : leb r.seq last_applied ≡ true = ground arith in
      rw old (run-applied finish (newest m r.seq) s rs h)

  -- A run that ends well returns the highest sequence.
  run_max :
      (rs : List LogRecord) (m : ℕ) (s s' : S) {n : ℕ}
      → run apply last_applied (λ k t. (ok k, t)) m s rs ≡ (ok n, s')
      → n ≡ highest m rs
  unfolding run highest
  run_max [] m s s' e = sym (ok_path (ap (λ o. o.0) e))
  run_max (r ∷ rs) m s s' e = elim (Bool-cases (leb r.seq last_applied)) [
    | inl old ↦ run_max rs (newest m r.seq) s s' (rw old at e)
    | inr new ↦
        applied (apply r.seq r.page_id r.payload s) (λ t. run_max rs (newest m r.seq) t s')
          (rw new at e)
  ]
    where
      applied :
          (o : Option E × S) {n : ℕ}
          → ((t : S)
              → run apply last_applied (λ k t. (ok k, t)) (newest m r.seq) t rs ≡ (ok n, s')
              → n ≡ highest (newest m r.seq) rs)
          → after_apply (λ t. run apply last_applied (λ k t. (ok k, t)) (newest m r.seq) t rs) o
            ≡ (ok n, s')
          → n ≡ highest (newest m r.seq) rs
      applied (none, t) h e = unfold after_apply in h t e
      applied (some x, t) h e = unfold after_apply in cc (ap (λ o. o.0) e)

-- When a replay of a file of whole records ends well with the highest sequence n, a second replay
-- that starts from there (from last_applied, if that is higher) returns n again and leaves the
-- store as it is, whatever the callback does.
pub replay-twice :
    {S E : Type 0} (c : WalConfig) (apply : ℕ → ℕ → List ℕ → S → Option E × S) (rs : List LogRecord)
    (last_applied : ℕ) (s s' : S) {bytes : List ℕ} {n : ℕ}
    → IsConfig c
    → AreRecords c rs
    → write_log c rs ≡ some bytes
    → parse_and_replay_wal c apply bytes last_applied s ≡ (ok n, s')
    → parse_and_replay_wal c apply bytes (max last_applied n) s' ≡ (ok n, s')
replay-twice c apply rs last_applied s s' {bytes} {n} ok_config h w e =
    let top : n ≡ highest 0 rs =
      run_max apply last_applied rs 0 s s'
        (sym (replay-write_log c ok_config apply last_applied rs s h w) ∙ e) in
    let all = highest-AllApplied (max last_applied n) 0 rs (omega (arith, top)) in
    replay-write_log c ok_config apply (max last_applied n) rs s' h w
    ∙ run-applied apply (max last_applied n) _ 0 s' rs all
    ∙ ap (λ k. (ok k, s')) (sym top)
