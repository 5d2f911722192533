-- ===== src/Shadow/Ingress/RoundTrip.antt =====
-- What the writer of shadow/ingress.py appends and what the reader returns.
use mathlib.Core.Path.{subst}
use aiquant_trader.Prelude.{
  ℕ, zero, suc, ◌+◌, ◌-◌, ◌<◌, ◌≤◌, ◌≡◌, refl, sym, ap, ◌∙◌, true, false, some, List, [], ◌∷◌, ◌++◌,
  append_assoc, ltb, keep, take, drop, arith,
}
use aiquant_trader.Shadow.Ingress.{
  ParsedFrame, validate_envelope, Codec, ParsesBack, FrameRow, ShadowIngressRecord, Frames, Result,
  ok, err, envelope_of, append, insert_row, order_by_sequence, select_after, check_row, check_rows,
  read_after, append_all, empty,
}

-- A row and the record that its append returned, with the number that follows `k`.
pub record IsStored (c : Codec) (k : ℕ) (r : FrameRow) (q : ShadowIngressRecord) : Type 0 where
  pub numbered : r.sequence ≡ k + 1
  pub recorded : q.record_sequence ≡ k + 1
  pub digest : r.envelope_sha256 ≡ c.sha256 r.envelope_json
  pub returned : q.record_sha256 ≡ c.sha256 r.envelope_json
  pub parses : c.parse r.envelope_json ≡ some q.envelope

abbrev pub Stored : Codec → ℕ → List FrameRow → List ShadowIngressRecord → Type 0
Stored c k [] [] = Unit
Stored c k [] (q ∷ qs) = ⊥
Stored c k (r ∷ rs) [] = ⊥
Stored c k (r ∷ rs) (q ∷ qs) = IsStored c k r q × Stored c (k + 1) rs qs

check_row-IsStored :
    (c : Codec) (k : ℕ) (r : FrameRow) (q : ShadowIngressRecord)
    → IsStored c k r q
    → check_row c (k + 1) r ≡ ok q
unfolding check_row
check_row-IsStored c k r q s =
    ground (arith, s.numbered, s.digest, s.parses, s.recorded, s.returned)

check_rows-Stored :
    (c : Codec) (k : ℕ) (rs : List FrameRow) (qs : List ShadowIngressRecord)
    → Stored c k rs qs
    → check_rows c (k + 1) rs ≡ ok qs
unfolding check_rows
check_rows-Stored c k [] [] s = refl
check_rows-Stored c k [] (q ∷ qs) s = absurd s
check_rows-Stored c k (r ∷ rs) [] s = absurd s
check_rows-Stored c k (r ∷ rs) (q ∷ qs) (h, s) =
    rw (check_row-IsStored c k r q h, check_rows-Stored c (k + 1) rs qs s)

Stored-take :
    (c : Codec) (k n : ℕ) (rs : List FrameRow) (qs : List ShadowIngressRecord)
    → Stored c k rs qs
    → Stored c k (take n rs) (take n qs)
Stored-take c k zero rs qs s = tt
Stored-take c k (suc n) [] [] s = tt
Stored-take c k (suc n) [] (q ∷ qs) s = absurd s
Stored-take c k (suc n) (r ∷ rs) [] s = absurd s
Stored-take c k (suc n) (r ∷ rs) (q ∷ qs) (h, s) = (h, Stored-take c (k + 1) n rs qs s)

Stored-drop :
    (c : Codec) (k n j : ℕ) (rs : List FrameRow) (qs : List ShadowIngressRecord)
    → k + n ≡ j
    → Stored c k rs qs
    → Stored c j (drop n rs) (drop n qs)
Stored-drop c k zero j rs qs e s =
    let e' : k ≡ j = omega (arith, e) in subst (λ i. Stored c i rs qs) e' s
Stored-drop c k (suc n) j [] [] e s = tt
Stored-drop c k (suc n) j [] (q ∷ qs) e s = absurd s
Stored-drop c k (suc n) j (r ∷ rs) [] e s = absurd s
Stored-drop c k (suc n) j (r ∷ rs) (q ∷ qs) e (h, s) =
    Stored-drop c (k + 1) n j rs qs (omega (arith, e)) s

insert_row-first :
    (c : Codec) (k : ℕ) (r : FrameRow) (rs : List FrameRow) (qs : List ShadowIngressRecord)
    → r.sequence ≤ k
    → Stored c k rs qs
    → insert_row r rs ≡ r ∷ rs
unfolding insert_row
insert_row-first c k r [] qs le s = refl
insert_row-first c k r (x ∷ xs) [] le s = absurd s
insert_row-first c k r (x ∷ xs) (q ∷ qs) le (h, s) = ground (arith, le, h.numbered)

order_by_sequence-Stored :
    (c : Codec) (k : ℕ) (rs : List FrameRow) (qs : List ShadowIngressRecord)
    → Stored c k rs qs
    → order_by_sequence rs ≡ rs
unfolding order_by_sequence
order_by_sequence-Stored c k [] qs s = refl
order_by_sequence-Stored c k (r ∷ rs) [] s = absurd s
order_by_sequence-Stored c k (r ∷ rs) (q ∷ qs) (h, s) =
    rw (order_by_sequence-Stored c (k + 1) rs qs s)
      (insert_row-first c (k + 1) r rs qs (omega (arith, h.numbered)) s)

keep-Stored :
    (c : Codec) (cursor k n : ℕ) (rs : List FrameRow) (qs : List ShadowIngressRecord)
    → cursor - k ≡ n
    → Stored c k rs qs
    → keep (λ (r : FrameRow). ltb cursor r.sequence) rs ≡ drop n rs
keep-Stored c cursor k zero [] qs e s = refl
keep-Stored c cursor k (suc n) [] qs e s = refl
keep-Stored c cursor k n (r ∷ rs) [] e s = absurd s
keep-Stored c cursor k zero (r ∷ rs) (q ∷ qs) e (h, s) =
    ground (arith, h.numbered, e, keep-Stored c cursor (k + 1) 0 rs qs (omega (arith, e)) s)
keep-Stored c cursor k (suc n) (r ∷ rs) (q ∷ qs) e (h, s) =
    ground (arith, h.numbered, e, keep-Stored c cursor (k + 1) n rs qs (omega (arith, e)) s)

select_after-Stored :
    (c : Codec) (cursor limit : ℕ) (rs : List FrameRow) (qs : List ShadowIngressRecord)
    → Stored c 0 rs qs
    → select_after cursor limit rs ≡ take limit (drop cursor rs)
unfolding select_after
select_after-Stored c cursor limit rs qs s = rw (
  keep-Stored c cursor 0 cursor rs qs (omega arith) s,
  order_by_sequence-Stored c cursor (drop cursor rs) (drop cursor qs)
      (Stored-drop c 0 cursor cursor rs qs (omega arith) s),
)

-- What one append adds.
record IsAppended (c : Codec) (t : Frames) (q : ShadowIngressRecord) (u : Frames) : Type 0 where
  pub row : FrameRow
  pub added : u.rows ≡ t.rows ++ row ∷ []
  pub counter : u.last_sequence ≡ t.last_sequence + 1
  pub stored : IsStored c t.last_sequence row q

append-IsAppended :
    (c : Codec) (f : ParsedFrame) (written : ℕ) (t u : Frames) (q : ShadowIngressRecord)
    → ParsesBack c
    → append c f written t ≡ ok (q, u)
    → IsAppended c t q u
unfolding append
append-IsAppended c f written t u q back h =
    let valid : validate_envelope (envelope_of f written) ≡ true = ground arith in
    let parses = back (envelope_of f written) valid in
    record {
      row = record {
        sequence = t.last_sequence + 1;
        envelope_sha256 = c.sha256 (c.canonical_bytes (envelope_of f written));
        envelope_json = c.canonical_bytes (envelope_of f written);
      };
      added = ground arith;
      counter = ground arith;
      stored = record {
        numbered = refl;
        recorded = ground arith;
        digest = refl;
        returned = ground arith;
        parses = ground (arith, parses);
      };
    }

append_none : (xs : List FrameRow) → xs ≡ xs ++ []
append_none [] = refl
append_none (x ∷ xs) = ap (λ zs. x ∷ zs) (append_none xs)

-- What a run of the writer adds.
record AreAppended (c : Codec) (t : Frames) (qs : List ShadowIngressRecord) (u : Frames)
    : Type 0 where
  pub rows : List FrameRow
  pub added : u.rows ≡ t.rows ++ rows
  pub stored : Stored c t.last_sequence rows qs

AreAppended-cons :
    (c : Codec) (t u v : Frames) (q : ShadowIngressRecord) (qs : List ShadowIngressRecord)
    → IsAppended c t q u
    → AreAppended c u qs v
    → AreAppended c t (q ∷ qs) v
AreAppended-cons c t u v q qs a b = record {
  rows = a.row ∷ b.rows;
  added = b.added ∙ ap (λ rs. rs ++ b.rows) a.added ∙ append_assoc t.rows (a.row ∷ []) b.rows;
  stored = (a.stored, subst (λ k. Stored c k b.rows qs) a.counter b.stored);
}

append_all-AreAppended :
    (c : Codec) (fs : List (ParsedFrame × ℕ)) (t : Frames)
    → ParsesBack c
    → AreAppended c t (append_all c fs t).0 (append_all c fs t).1
unfolding append_all
append_all-AreAppended c [] t back = record { rows = []; added = append_none t.rows; stored = tt }
append_all-AreAppended c ((f, written) ∷ fs) t back =
    by_result (append c f written t) refl (λ u. append_all-AreAppended c fs u back)
  where
    run : Result (ShadowIngressRecord × Frames) → List ShadowIngressRecord × Frames
    run x = elim x [
      | ok (r, t') ↦ let (rs, last) = append_all c fs t' in (r ∷ rs, last)
      | err e ↦ append_all c fs t
    ]

    by_result :
        (x : Result (ShadowIngressRecord × Frames))
        → append c f written t ≡ x
        → ((u : Frames) → AreAppended c u (append_all c fs u).0 (append_all c fs u).1)
        → AreAppended c t (run x).0 (run x).1
    by_result (ok (q, u)) e rest =
        AreAppended-cons c t u (append_all c fs u).1 q (append_all c fs u).0
          (append-IsAppended c f written t u q back e) (rest u)
    by_result (err e) h rest = rest t

-- If a valid envelope is parsed back, then after any sequence of appends to an empty table, the
-- invalid ones failing, the reader returns exactly the records that the appends returned, from the
-- cursor on and up to the limit, in their order.
pub append_all-read_after :
    (c : Codec) (fs : List (ParsedFrame × ℕ)) (cursor limit : ℕ)
    → ParsesBack c
    → 0 < limit
    → read_after c cursor limit (append_all c fs empty).1.rows
      ≡ ok (take limit (drop cursor (append_all c fs empty).0))
unfolding read_after
append_all-read_after c fs cursor limit back positive =
    let a = append_all-AreAppended c fs empty back in
    let stored : Stored c 0 (append_all c fs empty).1.rows (append_all c fs empty).0 =
      subst (λ rs. Stored c 0 rs (append_all c fs empty).0) (sym a.added) a.stored in
    let asked : ltb limit 1 ≡ false = ground (arith, positive) in
    rw (asked, select_after-Stored c cursor limit _ _ stored)
      (check_rows-Stored c cursor _ _
        (Stored-take c cursor limit _ _ (Stored-drop c 0 cursor cursor _ _ (omega arith) stored)))
