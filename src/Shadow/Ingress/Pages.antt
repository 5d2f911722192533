-- ===== src/Shadow/Ingress/Pages.antt =====
-- What `read_after` of shadow/ingress.py returns from a table that it does not trust.
use mathlib.Core.Path.{subst}
use aiquant_trader.Prelude.{
  ℕ, suc, ◌+◌, ◌≡◌, refl, ◌⊎◌, inl, inr, some, List, [], ◌∷◌, length, ltb, leb, All, All-keep,
  All-take, arith, Bool-cases,
}
use aiquant_trader.Shadow.Ingress.{
  ShadowIngressEnvelope, Codec, FrameRow, ShadowIngressRecord, Result, ok, err, ◌>>=◌, insert_row,
  order_by_sequence, select_after, parsed, check_row, check_rows, read_after,
}

abbrev pub Has : FrameRow → List FrameRow → Type 0
Has r [] = ⊥
Has r (x ∷ xs) = (r ≡ x) ⊎ Has r xs

-- A record that a row of the table bears out, with the number that follows `k`.
pub record IsGenuine (c : Codec) (rows : List FrameRow) (k : ℕ) (q : ShadowIngressRecord)
    : Type 0 where
  pub row : FrameRow
  pub present : Has row rows
  pub numbered : row.sequence ≡ k + 1
  pub recorded : q.record_sequence ≡ k + 1
  pub digest : c.sha256 row.envelope_json ≡ row.envelope_sha256
  pub returned : q.record_sha256 ≡ row.envelope_sha256
  pub parses : c.parse row.envelope_json ≡ some q.envelope

abbrev pub Genuine : Codec → List FrameRow → ℕ → List ShadowIngressRecord → Type 0
Genuine c rows k [] = Unit
Genuine c rows k (q ∷ qs) = IsGenuine c rows k q × Genuine c rows (k + 1) qs

module _ (P : FrameRow → Type 0) where
  All-insert_row : (r : FrameRow) (rs : List FrameRow) → P r → All P rs → All P (insert_row r rs)
  unfolding insert_row
  All-insert_row r [] a h = (a, tt)
  All-insert_row r (x ∷ xs) a (b, h) = elim (Bool-cases (leb r.sequence x.sequence)) [
    | inl q ↦ rw q (a, (b, h))
    | inr q ↦ rw q (b, All-insert_row r xs a h)
  ]

  All-order_by_sequence : (rs : List FrameRow) → All P rs → All P (order_by_sequence rs)
  unfolding order_by_sequence
  All-order_by_sequence [] h = tt
  All-order_by_sequence (r ∷ rs) (a, h) =
      All-insert_row r (order_by_sequence rs) a (All-order_by_sequence rs h)

  All-select_after :
      (cursor limit : ℕ) (rs : List FrameRow) → All P rs → All P (select_after cursor limit rs)
  unfolding select_after
  All-select_after cursor limit rs h =
      All-take P limit _
        (All-order_by_sequence _ (All-keep P (λ (r : FrameRow). ltb cursor r.sequence) rs h))

All-Has : (rs : List FrameRow) → All (λ r. Has r rs) rs
All-Has rs = within rs rs (λ r h. h)
  where
    within :
        (xs ys : List FrameRow) → ((r : FrameRow) → Has r xs → Has r ys) → All (λ r. Has r ys) xs
    within [] ys f = tt
    within (x ∷ xs) ys f = (f x (inl refl), within xs ys (λ r h. f r (inr h)))

check_row-IsGenuine :
    (c : Codec) (rows : List FrameRow) (k : ℕ) (r : FrameRow) (q : ShadowIngressRecord)
    → Has r rows
    → check_row c (k + 1) r ≡ ok q
    → IsGenuine c rows k q
unfolding check_row
check_row-IsGenuine c rows k r q has h = record {
  row = r;
  present = has;
  numbered = ground arith;
  recorded = ground arith;
  digest = ground arith;
  returned = ground arith;
  parses = ground arith;
}

bind_inverse :
    {X Y : Type 0} {y : Y} (next : X → Result Y) (first : Result X)
    → (first >>= next) ≡ ok y
    → (x : X) × (first ≡ ok x) × (next x ≡ ok y)
bind_inverse next (err e) h = absurd (never h)
  where
    never : {Y : Type 0} {y : Y} → err e ≡ ok y → ⊥
    never q = cc
bind_inverse next (ok x) h = (x, refl, h)

ok_injective : {X : Type 0} {x y : X} → ok x ≡ ok y → x ≡ y
ok_injective q = cc

check_rows-Genuine :
    (c : Codec) (rows : List FrameRow) (k : ℕ) (rs : List FrameRow) (qs : List ShadowIngressRecord)
    → All (λ r. Has r rows) rs
    → check_rows c (k + 1) rs ≡ ok qs
    → Genuine c rows k qs × (length qs ≡ length rs)
unfolding check_rows
check_rows-Genuine c rows k [] qs a h =
    subst (λ xs. Genuine c rows k xs × (length xs ≡ 0)) (ok_injective h) (tt, refl)
check_rows-Genuine c rows k (r ∷ rs) qs (has, a) h =
    let (q, first, others) =
      bind_inverse (λ q. check_rows c (k + 1 + 1) rs >>= λ rest. ok (q ∷ rest))
        (check_row c (k + 1) r) h in
    let (rest, checked, done) =
      bind_inverse (λ rest. ok (q ∷ rest)) (check_rows c (k + 1 + 1) rs) others in
    let (genuine, count) = check_rows-Genuine c rows (k + 1) rs rest a checked in
    subst (λ xs. Genuine c rows k xs × (length xs ≡ suc (length rs))) (ok_injective done)
      ((check_row-IsGenuine c rows k r q has first, genuine), omega (arith, count))

-- Whatever the table holds, a reading that succeeds returns records that rows of the table bear out,
-- each with a digest that matches its bytes, numbered from the one after the cursor without a gap;
-- and it leaves out no row that the query selected.
pub read_after-Genuine :
    (c : Codec) (cursor limit : ℕ) (rows : List FrameRow) (qs : List ShadowIngressRecord)
    → read_after c cursor limit rows ≡ ok qs
    → Genuine c rows cursor qs × (length qs ≡ length (select_after cursor limit rows))
unfolding read_after
read_after-Genuine c cursor limit rows qs h = elim (Bool-cases (ltb limit 1)) [
  | inl bad ↦ absurd (never (rw bad at h))
  | inr good ↦
      check_rows-Genuine c rows cursor (select_after cursor limit rows) qs
        (All-select_after (λ r. Has r rows) cursor limit rows (All-Has rows)) (rw good at h)
]
  where
    never : {e : aiquant_trader.Shadow.Ingress.IngressError} → err e ≡ ok qs → ⊥
    never q = cc
