-- ===== src/Mvcc/Visible.antt =====
-- What SelectVisible chooses: the newest version that is not newer than the reader.
use hexxladb.Base.{
  ℕ, ◌≤◌, ◌<◌, ◌≡◌, ◌⊎◌, inl, inr, refl, List, [], ◌∷◌, Option, none, some, arith, Elem, Bool-cases,
  ltb,
}
use hexxladb.Mvcc.{VersionKv, better, best_loop, select_visible}

-- No version among these is visible to the reader.
abbrev pub NoneVisible : ℕ → List VersionKv → Type 0
NoneVisible r [] = Unit
NoneVisible r (v ∷ vs) = (r < v.commit_seq) × NoneVisible r vs

-- Each version that the reader may see is no newer than c.
abbrev pub VisibleUpTo : ℕ → ℕ → List VersionKv → Type 0
VisibleUpTo r c [] = Unit
VisibleUpTo r c (v ∷ vs) = (v.commit_seq ≤ r → v.commit_seq ≤ c) × VisibleUpTo r c vs

-- What the loop ends with, from a best version b and over the versions vs.
record Newest (r : ℕ) (b : VersionKv) (vs : List VersionKv) (w : VersionKv) : Type 0 where
  is_visible : w.commit_seq ≤ r
  covers : b.commit_seq ≤ w.commit_seq
  up_to : VisibleUpTo r w.commit_seq vs
  among : (w ≡ b) ⊎ Elem w vs

abbrev Ends : ℕ → VersionKv → List VersionKv → Type 0
Ends r b vs = (w : VersionKv) × (best_loop r (some b) vs ≡ some w) × Newest r b vs w

keeps_best :
    (r : ℕ) (b v : VersionKv) (vs : List VersionKv)
    → better r (some b) v ≡ some b
    → (v.commit_seq ≤ r → v.commit_seq ≤ b.commit_seq)
    → Ends r b vs
    → Ends r b (v ∷ vs)
unfolding best_loop
keeps_best r b v vs e older (w, ran, n) = (
  w,
  rw e ran,
  record {
    is_visible = n.is_visible;
    covers = n.covers;
    up_to = (λ h. omega (arith, older h, n.covers), n.up_to);
    among = elim n.among [ inl same ↦ inl same | inr later ↦ inr (inr later) ];
  },
)

takes_newer :
    (r : ℕ) (b v : VersionKv) (vs : List VersionKv)
    → better r (some b) v ≡ some v
    → b.commit_seq < v.commit_seq
    → Ends r v vs
    → Ends r b (v ∷ vs)
unfolding best_loop
takes_newer r b v vs e newer (w, ran, n) = (
  w,
  rw e ran,
  record {
    is_visible = n.is_visible;
    covers = omega (arith, n.covers);
    up_to = (λ h. n.covers, n.up_to);
    among = inr n.among;
  },
)

-- The loop never loses a version that it has.
loop_some : (r : ℕ) (b : VersionKv) (vs : List VersionKv) → b.commit_seq ≤ r → Ends r b vs
loop_some r b [] h = (
  b,
  unfold best_loop in refl,
  record { is_visible = h; covers = omega arith; up_to = tt; among = inl refl },
)
loop_some r b (v ∷ vs) h = elim (Bool-cases (ltb r v.commit_seq)) [
  | inl hidden ↦
      keeps_best r b v vs (unfold better in rw hidden) (λ le. ground arith) (loop_some r b vs h)
  | inr shown ↦ elim (Bool-cases (ltb b.commit_seq v.commit_seq)) [
    | inl newer ↦
        takes_newer r b v vs (unfold better in rw (shown, newer)) (ground arith)
          (loop_some r v vs (ground arith))
    | inr older ↦
        keeps_best r b v vs (unfold better in rw (shown, older)) (λ le. ground arith)
          (loop_some r b vs h)
  ]
]

-- What SelectVisible answers: nothing, or the value and the commit sequence of the newest
-- version that is not newer than the reader.
abbrev pub Answers : ℕ → List VersionKv → Option (List ℕ × ℕ) → Type 0
Answers r vs none = NoneVisible r vs
Answers r vs (some (value, c)) =
    (c ≤ r) × VisibleUpTo r c vs × Elem (record { commit_seq = c; value = value }) vs

Answers-hidden :
    (r : ℕ) (v : VersionKv) (vs : List VersionKv) (o : Option (List ℕ × ℕ))
    → r < v.commit_seq
    → Answers r vs o
    → Answers r (v ∷ vs) o
Answers-hidden r v vs none h a = (h, a)
Answers-hidden r v vs (some (value, c)) h (le, up, e) = (le, (λ k. absurd (omega arith), up), inr e)

-- On every list of versions, in any order, and for every reader: SelectVisible returns a version of
-- the list that the reader may see and that no other such version is newer than, or nothing where
-- every version is newer than the reader.
pub select_visible-Answers :
    (versions : List VersionKv) (read_seq : ℕ)
    → Answers read_seq versions (select_visible versions read_seq)
unfolding select_visible best_loop
select_visible-Answers [] r = tt
select_visible-Answers (v ∷ vs) r = elim (Bool-cases (ltb r v.commit_seq)) [
  | inl hidden ↦
      rw (hidden, better) (Answers-hidden r v vs _ (ground arith) (select_visible-Answers vs r))
  | inr shown ↦
      let (w, ran, n) = loop_some r v vs (ground arith) in
      rw (shown, better) (rw ran (n.is_visible, (λ h. n.covers, n.up_to), n.among))
]
