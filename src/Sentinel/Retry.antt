-- ===== src/Sentinel/Retry.antt =====
-- `SafetySentinel.step` after an emergency cancel that failed: the tries of the next one.
use aiquant_trader.Prelude.{
  ℕ, zero, suc, ◌+◌, ◌-◌, ◌*◌, ◌≤◌, ◌<◌, ◌≡◌, ◌≢◌, refl, sym, inl, inr, Bool, true, false, Option,
  none, some, List, leb, length, All, arith, Bool-cases, ◌⊎◌,
}
use aiquant_trader.Sentinel.Watch.{validate_deadman_timing, Sentinel, classify}
use aiquant_trader.Sentinel.Step.{
  Call, cancel_all, Memory, World, Report, unhealthy, cancel_failed, cancel_tries, cancel_is_due,
  step_unhealthy, step_healthy, step,
}

-- What the tries from the number `try` on have done, `more` of them at most.
record IsTried (succeeds : ℕ → Bool) (try more : ℕ) (r : Bool × List Call) : Type 0 where
  pub only_cancels : All (λ c. c ≡ cancel_all) r.1
  pub bounded : length r.1 ≤ more
  pub started : 0 < more → 0 < length r.1
  pub failed_before : (k : ℕ) → try ≤ k → k + 1 < try + length r.1 → succeeds k ≡ false
  pub ended :
      ((r.0 ≡ true) × (0 < length r.1) × (succeeds (try + length r.1 - 1) ≡ true))
      ⊎ ((r.0 ≡ false)
          × (length r.1 ≡ more)
          × ((k : ℕ) → try ≤ k → k < try + length r.1 → succeeds k ≡ false))

from_next :
    (succeeds : ℕ → Bool) (try end : ℕ)
    → succeeds try ≡ false
    → ((k : ℕ) → try + 1 ≤ k → k < end → succeeds k ≡ false)
    → (k : ℕ) → try ≤ k
    → k < end
    → succeeds k ≡ false
from_next succeeds try end first rest k le below = elim (Bool-cases (leb (try + 1) k)) [
  | inl after ↦ rest k (ground (arith, after)) below
  | inr at ↦ let same : k ≡ try = ground (arith, at, le) in rw same first
]

at_index : (succeeds : ℕ → Bool) (i j : ℕ) (b : Bool) → i ≡ j → succeeds i ≡ b → succeeds j ≡ b
at_index succeeds i j b e h = rw (sym e) h

cancel_tries-IsTried :
    (succeeds : ℕ → Bool) (try more : ℕ)
    → IsTried succeeds try more (cancel_tries succeeds try more)
unfolding cancel_tries
cancel_tries-IsTried succeeds try zero = record {
  only_cancels = tt;
  bounded = omega arith;
  started = λ h. h;
  failed_before = λ k le h. absurd (omega (arith, le, h));
  ended = inr (refl, refl, λ k le h. absurd (omega (arith, le, h)));
}
cancel_tries-IsTried succeeds try (suc more) =
    let rest = cancel_tries-IsTried succeeds (try + 1) more in
    elim (Bool-cases (succeeds try)) [
      | inl done ↦ rw done (record {
        only_cancels = (refl, tt);
        bounded = omega arith;
        started = λ h. omega arith;
        failed_before = λ k le h. absurd (omega (arith, le, h));
        ended =
            inl (refl, omega arith, (let same : try + 1 - 1 ≡ try = omega arith in rw same done));
      })
      | inr failed ↦ rw failed (record {
        only_cancels = (refl, rest.only_cancels);
        bounded = omega (arith, rest.bounded);
        started = λ h. omega arith;
        failed_before = λ k le h.
            from_next succeeds try (try + length (cancel_tries succeeds (try + 1) more).1) failed
              (λ j after below. rest.failed_before j after (omega (arith, below))) k le
              (omega (arith, h));
        ended = elim rest.ended [
          | inl (done, some_try, last) ↦
              inl (done, omega arith, at_index succeeds _ _ true (omega arith) last)
          | inr (none_done, all_tries, each) ↦ inr (
            none_done,
            omega (arith, all_tries),
            from_next succeeds try _ failed (λ j after below. each j after (omega (arith, below))),
          )
        ];
      })
    ]

due_later :
    (interval now later : ℕ) (o : Option ℕ)
    → now ≤ later
    → cancel_is_due interval now o ≡ true
    → cancel_is_due interval later o ≡ true
due_later interval now later none le h = refl
due_later interval now later (some last) le h = ground (arith, le, h)

abbrev interval : Sentinel → ℕ
interval s = s.config.deadman_renew_interval_ms * 1_000_000

failed-due :
    (s : Sentinel) (w : World) (m : Memory)
    → (step_unhealthy s w m).outcome ≡ cancel_failed
    → (cancel_is_due (interval s) w.now m.last_emergency_cancel_ns ≡ true)
      × ((step_unhealthy s w m).memory.last_emergency_cancel_ns ≡ m.last_emergency_cancel_ns)
unfolding step_unhealthy
failed-due s w m h = (ground arith, ground arith)

step_healthy-outcome :
    (s : Sentinel) (w : World) (m : Memory) → (step_healthy s w m).outcome ≢ cancel_failed
unfolding step_healthy
step_healthy-outcome s w m h = ground arith

-- The emergency cancel of a step: `cancel_all` and nothing else is called, at least once and at most
-- `cancel_retry_count` times, again only after a failure; either the last try succeeded and its
-- time is remembered, or all the tries were used and failed, and the step ends as failed.
pub record IsRetried (s : Sentinel) (v : World) (r : Report) : Type 0 where
  pub only_cancels : All (λ c. c ≡ cancel_all) r.calls
  pub tried : 1 ≤ length r.calls
  pub bounded : length r.calls ≤ s.config.cancel_retry_count
  pub failed_before : (k : ℕ) → k + 1 < length r.calls → v.cancel_succeeds k ≡ false
  pub ended :
      ((v.cancel_succeeds (length r.calls - 1) ≡ true)
        × (r.outcome ≡ unhealthy)
        × (r.memory.last_emergency_cancel_ns ≡ some v.now))
      ⊎ ((v.cancel_succeeds (length r.calls - 1) ≡ false)
          × (length r.calls ≡ s.config.cancel_retry_count)
          × (r.outcome ≡ cancel_failed))

due-IsRetried :
    (s : Sentinel) (v : World) (m : Memory)
    → 0 < s.config.cancel_retry_count
    → cancel_is_due (interval s) v.now m.last_emergency_cancel_ns ≡ true
    → IsRetried s v (step_unhealthy s v m)
unfolding step_unhealthy
due-IsRetried s v m some_try due =
    let all = cancel_tries-IsTried v.cancel_succeeds 0 s.config.cancel_retry_count in
    elim all.ended [
      | inl (done, used, last) ↦
          rw (due, done)
            (record {
              only_cancels = all.only_cancels;
              tried = omega (arith, used);
              bounded = all.bounded;
              failed_before = λ k h. all.failed_before k (omega arith) (omega (arith, h));
              ended = inl (at_index v.cancel_succeeds _ _ true (omega arith) last, refl, refl);
            })
      | inr (failed, used, each) ↦
          rw (due, failed)
            (record {
              only_cancels = all.only_cancels;
              tried = omega (arith, used, some_try);
              bounded = all.bounded;
              failed_before = λ k h. all.failed_before k (omega arith) (omega (arith, h));
              ended = inr (each _ (omega arith) (omega (arith, used, some_try)), used, refl);
            })
    ]

-- With a valid configuration: after a step whose emergency cancel failed at every try, the step that
-- follows it directly, if its clock is not earlier and it finds the node unhealthy, cancels again,
-- without waiting for the interval between emergency cancels. It calls nothing but `cancel_all`,
-- until a try succeeds or `cancel_retry_count` tries have failed; a success ends the step as
-- unhealthy and is remembered with its time, and the failure of all ends it as failed once more.
pub step_retries :
    (s : Sentinel) (w v : World) (m : Memory)
    → validate_deadman_timing s.config ≡ true
    → (step s w m).outcome ≡ cancel_failed
    → w.now ≤ v.now
    → classify s v.guard v.heartbeat v.now ≡ false
    → IsRetried s v (step s v (step s w m).memory)
unfolding step
step_retries s w v m valid h later sick = elim (Bool-cases (classify s w.guard w.heartbeat w.now)) [
  | inl fine ↦ absurd (step_healthy-outcome s w m (rw fine at h))
  | inr also_sick ↦
      let (due, kept) = failed-due s w m (rw also_sick at h) in
      rw (sick, also_sick)
        (due-IsRetried s v (step_unhealthy s w m).memory
          (unfold validate_deadman_timing in ground arith)
          (rw kept (due_later (interval s) w.now v.now m.last_emergency_cancel_ns later due)))
]
