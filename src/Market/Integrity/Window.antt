-- ===== src/Market/Integrity/Window.antt =====
-- The window of trade keys that `IntegrityTracker` of market_data/integrity.py keeps, against the
-- history of all keys.
use mathlib.Core.Path.{subst}
use aiquant_trader.Prelude.{
  ℕ, zero, suc, ◌≤◌, ◌<◌, ◌≡◌, refl, sym, ap, ◌∙◌, Bool, true, false, not, inl, inr, List, [], ◌∷◌,
  ◌++◌, ltb, ◌==◌, if◌then◌else◌, member, length, take, arith, Bool-cases, if_both, if_cases,
}
use aiquant_trader.Market.Domain.{MarketEvent, l2_book, bbo, trade, other}
use aiquant_trader.Market.Integrity.{
  RawFrameMetadata, ParsedFrame, QualityIssue, IntegrityTracker, new_tracker, add_issue, key,
  remove, pop_oldest, is_duplicate_trade, observe_receipt, observe_time, verdict, observe_event,
  observe_events, observe_frame, record_parse_failure, Input, parsed_frame, unparsed_frame,
  observe_inputs,
}

-- Each key once, by its latest occurrence; the newest first.
abbrev pub distinct : List ℕ → List ℕ
distinct [] = []
distinct (k ∷ ks) = k ∷ remove k (distinct ks)

abbrev pub recent : ℕ → List ℕ → List ℕ
recent window past = take window (distinct past)

remove-take :
    (k n : ℕ) (ds : List ℕ)
    → member k (take (suc n) ds) ≡ true
    → remove k (take (suc n) ds) ≡ take n (remove k ds)
remove-take k n [] h = absurd (ground (arith, h))
remove-take k zero (x ∷ xs) h = elim (Bool-cases (k == x)) [
  | inl q ↦ rw q refl
  | inr q ↦ absurd (ground (arith, q, h))
]
remove-take k (suc n) (x ∷ xs) h = elim (Bool-cases (k == x)) [
  | inl q ↦ rw q refl
  | inr q ↦ rw q (ap (λ ys. x ∷ ys) (remove-take k n xs (rw q at h)))
]

take-remove :
    (k n : ℕ) (ds : List ℕ) → member k (take (suc n) ds) ≡ false → take n (remove k ds) ≡ take n ds
take-remove k n [] h = refl
take-remove k zero (x ∷ xs) h = refl
take-remove k (suc n) (x ∷ xs) h = elim (Bool-cases (k == x)) [
  | inl q ↦ absurd (ground (arith, q, h))
  | inr q ↦ rw q (ap (λ ys. x ∷ ys) (take-remove k n xs (rw q at h)))
]

take_short : (n : ℕ) (ds : List ℕ) → length (take (suc n) ds) ≤ n → take (suc n) ds ≡ take n ds
take_short zero [] h = refl
take_short (suc n) [] h = refl
take_short zero (x ∷ xs) h = absurd (omega (arith, h))
take_short (suc n) (x ∷ xs) h = ap (λ ys. x ∷ ys) (take_short n xs (omega (arith, h)))

pop_oldest-take :
    (k n : ℕ) (ds : List ℕ)
    → n < length (take (suc n) ds)
    → pop_oldest (k ∷ take (suc n) ds) ≡ k ∷ take n ds
pop_oldest-take k n [] h = absurd (omega (arith, h))
pop_oldest-take k zero (x ∷ xs) h = refl
pop_oldest-take k (suc n) (x ∷ xs) h = ap (λ ys. k ∷ ys) (pop_oldest-take x n xs (omega (arith, h)))

-- The eviction at a full window leaves the most recent keys.
is_duplicate_trade-recent :
    (window k : ℕ) (past : List ℕ)
    → is_duplicate_trade window k (recent window past)
      ≡ (member k (recent window past), recent window (k ∷ past))
unfolding is_duplicate_trade
is_duplicate_trade-recent zero k past = refl
is_duplicate_trade-recent (suc n) k past =
    if_cases P (member k (recent (suc n) past))
      (λ h. λ i. (sym h i, k ∷ remove-take k n (distinct past) h i))
      (λ h.
        if_cases P (ltb (suc n) (length (k ∷ recent (suc n) past)))
          (λ full. λ i. (
            sym h i,
            (pop_oldest-take k n (distinct past) (ground (arith, full))
                  ∙ ap (λ ys. k ∷ ys) (sym (take-remove k n (distinct past) h)))
                i,
          ))
          (λ room. λ i. (
            sym h i,
            ap (λ ys. k ∷ ys)
                (take_short n (distinct past) (ground (arith, room))
                  ∙ sym (take-remove k n (distinct past) h))
                i,
          )))
  where
    P : Bool × List ℕ → Type 0
    P r = r ≡ (member k (recent (suc n) past), recent (suc n) (k ∷ past))

abbrev pub events_of : List Input → List MarketEvent
events_of [] = []
events_of (parsed_frame f m ∷ is) = f.events ++ events_of is
events_of (unparsed_frame e m ∷ is) = events_of is

module _ (format : ℕ → ℕ → ℕ) (window : ℕ) where
  -- The keys of the trades so far, the newest first.
  abbrev pub remember : List ℕ → MarketEvent → List ℕ
  remember past (trade e) = key format e ∷ past
  remember past (l2_book e) = past
  remember past (bbo e) = past
  remember past (other kind h) = past

  abbrev pub remember_all : List ℕ → List MarketEvent → List ℕ
  remember_all past [] = past
  remember_all past (e ∷ es) = remember_all (remember past e) es

  -- A trade is new unless its key is among the latest `window` keys.
  abbrev pub is_new : List ℕ → MarketEvent → Bool
  is_new past (trade e) = not (member (key format e) (recent window past))
  is_new past (l2_book e) = true
  is_new past (bbo e) = true
  is_new past (other kind h) = true

  abbrev pub admitted : List ℕ → List MarketEvent → List MarketEvent
  admitted past [] = []
  admitted past (e ∷ es) =
      let rest = admitted (remember past e) es in if is_new past e then e ∷ rest else rest

  remember_all-append :
      (xs ys : List MarketEvent) (past : List ℕ)
      → remember_all past (xs ++ ys) ≡ remember_all (remember_all past xs) ys
  remember_all-append [] ys past = refl
  remember_all-append (x ∷ xs) ys past = remember_all-append xs ys (remember past x)

  admitted-append :
      (xs ys : List MarketEvent) (past : List ℕ)
      → admitted past (xs ++ ys) ≡ admitted past xs ++ admitted (remember_all past xs) ys
  admitted-append [] ys past = refl
  admitted-append (x ∷ xs) ys past = elim (Bool-cases (is_new past x)) [
    | inl q ↦ rw q (ap (λ zs. x ∷ zs) (admitted-append xs ys (remember past x)))
    | inr q ↦ rw q (admitted-append xs ys (remember past x))
  ]

  record IsWindow (past : List ℕ) (t : IntegrityTracker) : Type 0 where
    window_kept : t.duplicate_window ≡ window
    keys : t.trade_keys ≡ recent window past

  IsWindow-add_issue :
      (past : List ℕ) (b : Bool) (i : QualityIssue) (t : IntegrityTracker)
      → IsWindow past t
      → IsWindow past (add_issue b i t)
  IsWindow-add_issue past b i t h =
      if_both (IsWindow past) b (record { window_kept = h.window_kept; keys = h.keys }) h

  record IsJudged (past : List ℕ) (e : MarketEvent) (r : Bool × IntegrityTracker) : Type 0 where
    judged : r.0 ≡ is_new past e
    after : IsWindow (remember past e) r.1

  record IsScreened (past : List ℕ) (es : List MarketEvent)
      (r : List MarketEvent × IntegrityTracker) : Type 0 where
    accepted : r.0 ≡ admitted past es
    after : IsWindow (remember_all past es) r.1

  module _ (f : ParsedFrame) (m : RawFrameMetadata) where
    observe_time-IsWindow :
        (past : List ℕ) (e : MarketEvent) (t : IntegrityTracker)
        → IsWindow past t
        → IsWindow past (observe_time f m e t)
    unfolding observe_time
    observe_time-IsWindow past e t h =
        let w = IsWindow-add_issue past _ _ t h in
        record { window_kept = w.window_kept; keys = w.keys }

    verdict-IsJudged :
        (past : List ℕ) (e : MarketEvent) (ts : ℕ) (t : IntegrityTracker) (b : Bool) (ks : List ℕ)
        → t.duplicate_window ≡ window
        → not b ≡ is_new past e
        → ks ≡ recent window (remember past e)
        → IsJudged past e (verdict f m ts t (b, ks))
    verdict-IsJudged past e ts t true ks w n k = record {
      judged = n;
      after = record { window_kept = w; keys = k };
    }
    verdict-IsJudged past e ts t false ks w n k = record {
      judged = n;
      after = record { window_kept = w; keys = k };
    }

    observe_event-IsJudged :
        (past : List ℕ) (e : MarketEvent) (t : IntegrityTracker)
        → IsWindow past t
        → IsJudged past e (observe_event format f m e t)
    unfolding observe_event
    observe_event-IsJudged past (trade e) t h =
        let u = observe_time f m (trade e) t in
        let w = observe_time-IsWindow past (trade e) t h in
        let same : is_duplicate_trade u.duplicate_window (key format e) u.trade_keys
            ≡ (member (key format e) (recent window past), recent window (key format e ∷ past)) =
          (λ i. is_duplicate_trade (w.window_kept i) (key format e) (w.keys i))
          ∙ is_duplicate_trade-recent window (key format e) past in
        rw same (verdict-IsJudged past (trade e) e.header.event_ts_ns u _ _ w.window_kept refl refl)
    observe_event-IsJudged past (l2_book e) t h = record {
      judged = refl;
      after = observe_time-IsWindow past (l2_book e) t h;
    }
    observe_event-IsJudged past (bbo e) t h = record {
      judged = refl;
      after = observe_time-IsWindow past (bbo e) t h;
    }
    observe_event-IsJudged past (other kind h') t h = record {
      judged = refl;
      after = observe_time-IsWindow past (other kind h') t h;
    }

    observe_events-IsScreened :
        (es : List MarketEvent) (past : List ℕ) (t : IntegrityTracker)
        → IsWindow past t
        → IsScreened past es (observe_events format f m es t)
    unfolding observe_events
    observe_events-IsScreened [] past t h = record { accepted = refl; after = h }
    observe_events-IsScreened (e ∷ es) past t h =
        let first = observe_event-IsJudged past e t h in
        let rest = observe_events-IsScreened es (remember past e) _ first.after in
        record { accepted = rw (first.judged, rest.accepted) refl; after = rest.after }

    observe_frame-IsScreened :
        (past : List ℕ) (t : IntegrityTracker)
        → IsWindow past t
        → IsScreened past f.events (observe_frame format f m t)
    unfolding observe_frame observe_receipt
    observe_frame-IsScreened past t h =
        let w = IsWindow-add_issue past _ _ t h in
        observe_events-IsScreened f.events past _
          (record { window_kept = w.window_kept; keys = w.keys })

  observe_inputs-IsScreened :
      (is : List Input) (past : List ℕ) (t : IntegrityTracker)
      → IsWindow past t
      → IsScreened past (events_of is) (observe_inputs format is t)
  unfolding observe_inputs record_parse_failure
  observe_inputs-IsScreened [] past t h = record { accepted = refl; after = h }
  observe_inputs-IsScreened (parsed_frame f m ∷ is) past t h =
      let first = observe_frame-IsScreened f m past t h in
      let rest = observe_inputs-IsScreened is (remember_all past f.events) _ first.after in
      record {
        accepted =
            (λ i. first.accepted i ++ rest.accepted i)
            ∙ sym (admitted-append f.events (events_of is) past);
        after =
            subst (λ ks. IsWindow ks (observe_inputs format (parsed_frame f m ∷ is) t).1)
              (sym (remember_all-append f.events (events_of is) past)) rest.after;
      }
  observe_inputs-IsScreened (unparsed_frame e m ∷ is) past t h =
      observe_inputs-IsScreened is past (record_parse_failure e m t).1
        (record { window_kept = h.window_kept; keys = h.keys })

-- Whatever frames a new tracker observes, parse failures between them: the events that it passes on are
-- all but the trades whose key is among the `window` latest different keys of all trades seen
-- before, the refused ones included; and the keys that it keeps are those latest keys.
pub observe_inputs-admitted :
    (format : ℕ → ℕ → ℕ) (threshold window : ℕ) (is : List Input)
    → ((observe_inputs format is (new_tracker threshold window)).0
        ≡ admitted format window [] (events_of is))
      × ((observe_inputs format is (new_tracker threshold window)).1.trade_keys
          ≡ recent window (remember_all format window [] (events_of is)))
observe_inputs-admitted format threshold window is =
    let s =
      observe_inputs-IsScreened format window is [] (new_tracker threshold window)
        (record { window_kept = refl; keys = empty window }) in
    (s.accepted, s.after.keys)
  where
    empty : (n : ℕ) → [] ≡ take {A = ℕ} n []
    empty zero = refl
    empty (suc n) = refl
