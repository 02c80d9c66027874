-- ===== src/Mvcc/Snapshot.antt =====
-- What later commits do to a reader: nothing if it is older, and all if it is not.
use hexxladb.Base.{
  ℕ, ◌≤◌, ◌<◌, ◌≡◌, refl, ◌∙◌, ap, List, [], ◌∷◌, ◌++◌, Option, none, some, arith, Bool-cases, inl,
  inr, ltb,
}
use hexxladb.Mvcc.{VersionKv, better, best_loop, found, select_visible}
use hexxladb.Mvcc.Visible.{NoneVisible}

best_loop-append :
    (r : ℕ) (b : Option VersionKv) (vs ws : List VersionKv)
    → best_loop r b (vs ++ ws) ≡ best_loop r (best_loop r b vs) ws
unfolding best_loop
best_loop-append r b [] ws = refl
best_loop-append r b (v ∷ vs) ws = best_loop-append r (better r b v) vs ws

better_hidden : (r : ℕ) (b : Option VersionKv) (v : VersionKv) → r < v.commit_seq → better r b v ≡ b
unfolding better
better_hidden r none v h = ground arith
better_hidden r (some b) v h = ground arith

best_loop_hidden :
    (r : ℕ) (b : Option VersionKv) (vs : List VersionKv) → NoneVisible r vs → best_loop r b vs ≡ b
unfolding best_loop
best_loop_hidden r b [] h = refl
best_loop_hidden r b (v ∷ vs) (h, hs) = rw (better_hidden r b v h) (best_loop_hidden r b vs hs)

-- Versions that are appended after the reader's sequence, in any order, do not change what it sees.
pub select_visible_stable :
    (versions newer : List VersionKv) (read_seq : ℕ)
    → NoneVisible read_seq newer
    → select_visible (versions ++ newer) read_seq ≡ select_visible versions read_seq
unfolding select_visible
select_visible_stable vs ws r h =
    ap found (best_loop-append r none vs ws ∙ best_loop_hidden r (best_loop r none vs) ws h)

-- The versions all precede the commit c.
abbrev pub Before : ℕ → List VersionKv → Type 0
Before c [] = Unit
Before c (v ∷ vs) = (v.commit_seq < c) × Before c vs

-- A version that the loop can hold precedes c.
abbrev HoldsBefore : ℕ → Option VersionKv → Type 0
HoldsBefore c none = Unit
HoldsBefore c (some b) = b.commit_seq < c

better_before :
    (r c : ℕ) (b : Option VersionKv) (v : VersionKv)
    → HoldsBefore c b
    → v.commit_seq < c
    → HoldsBefore c (better r b v)
unfolding better
better_before r c none v h k = elim (Bool-cases (ltb r v.commit_seq)) [
  | inl e ↦ rw e tt
  | inr e ↦ rw e k
]
better_before r c (some b) v h k = elim (Bool-cases (ltb r v.commit_seq)) [
  | inl e ↦ rw e h
  | inr e ↦ elim (Bool-cases (ltb b.commit_seq v.commit_seq)) [
    | inl f ↦ rw (e, f) k
    | inr f ↦ rw (e, f) h
  ]
]

best_loop-Before :
    (r c : ℕ) (b : Option VersionKv) (vs : List VersionKv)
    → HoldsBefore c b
    → Before c vs
    → HoldsBefore c (best_loop r b vs)
unfolding best_loop
best_loop-Before r c b [] h k = h
best_loop-Before r c b (v ∷ vs) h (k, ks) =
    best_loop-Before r c (better r b v) vs (better_before r c b v h k) ks

better_last :
    (r : ℕ) (b : Option VersionKv) (v : VersionKv)
    → v.commit_seq ≤ r
    → HoldsBefore v.commit_seq b
    → better r b v ≡ some v
unfolding better
better_last r none v h k = ground arith
better_last r (some b) v h k = ground arith

-- When a version is appended whose commit follows those of all the others, a reader whose sequence
-- is that of the commit or a later one sees it.
pub select_visible_committed :
    (versions : List VersionKv) (v : VersionKv) (read_seq : ℕ)
    → Before v.commit_seq versions
    → v.commit_seq ≤ read_seq
    → select_visible (versions ++ v ∷ []) read_seq ≡ some (v.value, v.commit_seq)
unfolding select_visible
select_visible_committed vs v r b h = ap found (
    best_loop-append r none vs (v ∷ [])
    ∙ unfold best_loop in
      better_last r (best_loop r none vs) v h (best_loop-Before r v.commit_seq none vs tt b))
