-- ===== src/Sentinel/Safety.antt =====
-- `SafetySentinel.step` over a run: the exchange's dead-man timer and the emergency cancels.
use aiquant_trader.Prelude.{
  ℕ, zero, suc, ◌+◌, ◌-◌, ◌*◌, ◌/◌, ◌<◌, ◌≡◌, ◌≢◌, refl, inl, inr, Bool, true, false, List, [], ◌∷◌,
  ltb, if◌then◌else◌, All, arith, Bool-cases,
}
use aiquant_trader.Sentinel.Watch.{validate_deadman_timing, Sentinel, classify}
use aiquant_trader.Sentinel.Step.{
  Call, cancel_all, schedule_cancel, Memory, World, healthy, schedule_failed, cancel_tries,
  cancel_is_due, deadline, step_unhealthy, step_healthy, step, watch,
}

-- A call that the health of the node asks for.
abbrev pub IsJustified : Sentinel → World → Call → Type 0
IsJustified s w cancel_all = classify s w.guard w.heartbeat w.now ≡ false
IsJustified s w (schedule_cancel d) =
    (classify s w.guard w.heartbeat w.now ≡ true) × (d ≡ deadline s w.now)

cancel_tries-IsJustified :
    (s : Sentinel) (w : World) (try more : ℕ)
    → classify s w.guard w.heartbeat w.now ≡ false
    → All (IsJustified s w) (cancel_tries w.cancel_succeeds try more).1
unfolding cancel_tries
cancel_tries-IsJustified s w try zero sick = tt
cancel_tries-IsJustified s w try (suc more) sick =
    by_answer (w.cancel_succeeds try) (cancel_tries-IsJustified s w (try + 1) more sick)
  where
    next : Bool → Bool × List Call
    next b = if b then (true, cancel_all ∷ []) else (
      (cancel_tries w.cancel_succeeds (try + 1) more).0,
      cancel_all ∷ (cancel_tries w.cancel_succeeds (try + 1) more).1,
    )

    by_answer :
        (b : Bool)
        → All (IsJustified s w) (cancel_tries w.cancel_succeeds (try + 1) more).1
        → All (IsJustified s w) (next b).1
    by_answer true rest = (sick, tt)
    by_answer false rest = (sick, rest)

step_unhealthy-IsJustified :
    (s : Sentinel) (w : World) (m : Memory)
    → classify s w.guard w.heartbeat w.now ≡ false
    → All (IsJustified s w) (step_unhealthy s w m).calls
unfolding step_unhealthy
step_unhealthy-IsJustified s w m sick =
    elim (Bool-cases (
      cancel_is_due (s.config.deadman_renew_interval_ms * 1_000_000) w.now
        m.last_emergency_cancel_ns)) [
          | inl due ↦
              elim (Bool-cases (cancel_tries w.cancel_succeeds 0 s.config.cancel_retry_count).0) [
                | inl done ↦
                    rw (due, done) (cancel_tries-IsJustified s w 0 s.config.cancel_retry_count sick)
                | inr failed ↦
                    rw (due, failed)
                      (cancel_tries-IsJustified s w 0 s.config.cancel_retry_count sick)
              ]
          | inr early ↦ rw early tt
        ]

step_healthy-IsJustified :
    (s : Sentinel) (w : World) (m : Memory)
    → classify s w.guard w.heartbeat w.now ≡ true
    → All (IsJustified s w) (step_healthy s w m).calls
unfolding step_healthy
step_healthy-IsJustified s w m fine =
    elim (Bool-cases
      (ltb (w.now - m.last_renew_ns) (s.config.deadman_renew_interval_ms * 1_000_000))) [
        | inl early ↦ rw early tt
        | inr due ↦ elim (Bool-cases w.schedule_succeeds) [
          | inl done ↦ rw (due, done) ((fine, refl), tt)
          | inr failed ↦ rw (due, failed) ((fine, refl), tt)
        ]
      ]

step-IsJustified :
    (s : Sentinel) (w : World) (m : Memory) → All (IsJustified s w) (step s w m).calls
unfolding step
step-IsJustified s w m = elim (Bool-cases (classify s w.guard w.heartbeat w.now)) [
  | inl fine ↦ rw fine (step_healthy-IsJustified s w m fine)
  | inr sick ↦ rw sick (step_unhealthy-IsJustified s w m sick)
]

-- In any run, from any memory: the dead-man timer is moved only in a step that finds the node
-- healthy, and to the deadline of that step; and orders are canceled only in a step that does not.
pub watch-IsJustified :
    (s : Sentinel) (ws : List World) (m : Memory)
    → All (λ (c : World × List Call). All (IsJustified s c.0) c.1) (watch s ws m)
unfolding watch
watch-IsJustified s [] m = tt
watch-IsJustified s (w ∷ ws) m =
    (step-IsJustified s w m, watch-IsJustified s ws (step s w m).memory)

margin :
    (now last renew timeout : ℕ)
    → now < last + renew * 1_000_000
    → renew + 5_000 < timeout
    → now / 1_000_000 + 5_000 < last / 1_000_000 + timeout
margin now last renew timeout recent room = omega (arith, recent, room)

step_unhealthy-outcome :
    (s : Sentinel) (w : World) (m : Memory) → (step_unhealthy s w m).outcome ≢ healthy
unfolding step_unhealthy
step_unhealthy-outcome s w m h = ground arith

step_healthy-margin :
    (s : Sentinel) (w : World) (m : Memory)
    → validate_deadman_timing s.config ≡ true
    → (step_healthy s w m).outcome ≡ healthy
    → w.now / 1_000_000 + 5_000 < deadline s (step_healthy s w m).memory.last_renew_ns
unfolding step_healthy validate_deadman_timing
step_healthy-margin s w m valid h =
    elim (Bool-cases
      (ltb (w.now - m.last_renew_ns) (s.config.deadman_renew_interval_ms * 1_000_000))) [
        | inl early ↦ rw early (
            margin w.now m.last_renew_ns s.config.deadman_renew_interval_ms
              s.config.deadman_timeout_ms (ground (arith, early)) (ground arith))
        | inr due ↦ elim (Bool-cases w.schedule_succeeds) [
          | inl done ↦ rw (due, done) (ground arith)
          | inr failed ↦ absurd (never (rw (due, failed) at h))
        ]
      ]
  where
    never : schedule_failed ≡ healthy → ⊥
    never q = cc

-- A step that ends healthy leaves the timer more than five seconds ahead of its clock, if the
-- configuration is valid: the deadline of the last renewal that it remembers is that far away.
pub step-margin :
    (s : Sentinel) (w : World) (m : Memory)
    → validate_deadman_timing s.config ≡ true
    → (step s w m).outcome ≡ healthy
    → w.now / 1_000_000 + 5_000 < deadline s (step s w m).memory.last_renew_ns
unfolding step
step-margin s w m valid h = elim (Bool-cases (classify s w.guard w.heartbeat w.now)) [
  | inl fine ↦ rw fine (step_healthy-margin s w m valid (rw fine at h))
  | inr sick ↦ absurd (step_unhealthy-outcome s w m (rw sick at h))
]
