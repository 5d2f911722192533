-- ===== src/Heartbeat/Health.antt =====
-- What the sentinel makes of a published heartbeat.
use aiquant_trader.Prelude.{
  ℕ, ◌-◌, ◌*◌, ◌≡◌, refl, ◌∙◌, inl, inr, Bool, true, Bool-cases, not, ◌&&◌, Option, none, some, leb,
  arith, ==_refl,
}
use aiquant_trader.Risk.KillSwitch.{StateFile, read}
use aiquant_trader.Sentinel.Watch.{
  Admission, Sentinel, Guard, guarded, unguarded, admission_healthy, expected_expiry,
  identity_healthy, classify,
}
use aiquant_trader.Heartbeat.{Publisher, is_over, authorization_expiry, make_heartbeat}

-- The authorization that the publisher follows is the one whose expiry the guard reports: a renewal,
-- or the admission's own when there was none. An inactive guard reports nothing.
pub data FollowsAuthorization (a : Admission) : Option ℕ → Guard → Type 0 where
  renewed : (expiry : ℕ) → FollowsAuthorization a (some expiry) (guarded (some expiry))
  original : FollowsAuthorization a none (guarded (some a.admitted_expiry_ns))
  without_guard : FollowsAuthorization a none unguarded
  inactive : (o : Option ℕ) → FollowsAuthorization a o (guarded none)

authorization_expiry-expected_expiry :
    (a : Admission) (o : Option ℕ) (g : Guard)
    → FollowsAuthorization a o g
    → admission_healthy g ≡ true
    → authorization_expiry (some a) o ≡ some (expected_expiry a g)
authorization_expiry-expected_expiry a _ _ (renewed expiry) h = refl
authorization_expiry-expected_expiry a _ _ original h = refl
authorization_expiry-expected_expiry a _ _ without_guard h = refl
authorization_expiry-expected_expiry a _ _ (inactive o) h = absurd (ground (arith, h))

-- The publisher and the sentinel were started with the same configuration and admission, and the
-- publisher follows the authorization of the guard.
pub record AreMatched (p : Publisher) (s : Sentinel) (g : Guard) : Type 0 where
  pub environments : p.publisher_environment ≡ s.own_environment
  pub accounts : p.publisher_account ≡ s.own_account
  pub fingerprints : p.publisher_fingerprint ≡ s.own_fingerprint
  pub admissions : p.publisher_admission ≡ s.admission
  pub authorizations :
      (a : Admission) → s.admission ≡ some a → FollowsAuthorization a p.authorization g

matched_identity :
    (s : Sentinel) (g : Guard) (p : Publisher) (file : StateFile) (now : ℕ)
    → AreMatched p s g
    → admission_healthy g ≡ true
    → identity_healthy s.admission g (make_heartbeat file now p) ≡ true
unfolding make_heartbeat
matched_identity s g p file now m admitted = by_admission s.admission refl
  where
    by_admission :
        (o : Option Admission)
        → s.admission ≡ o
        → identity_healthy o g (make_heartbeat file now p) ≡ true
    by_admission none e = refl
    by_admission (some a) e = rw (
      m.admissions ∙ e,
      authorization_expiry-expected_expiry a p.authorization g (m.authorizations a e) admitted,
      ==_refl a.admitted_deployment,
      ==_refl a.admitted_approval,
      ==_refl a.admitted_id,
      ==_refl (expected_expiry a g),
    )

-- What a matched sentinel has to find.
abbrev pub is_well : Sentinel → Guard → Publisher → StateFile → ℕ → ℕ → Bool
is_well s g p file now later =
    leb (later - now) (s.config.heartbeat_stale_after_ms * 1_000_000)
    && admission_healthy g
    && p.publisher_execution_healthy
    && not (is_over p.healthy_until_ns now)
    && p.publisher_reconciled
    && not (read file now).active

-- To a sentinel with the configuration and the admission of the publisher, if the authorization that
-- the publisher follows is the one whose expiry the guard reports, so that none was renewed between
-- the publication and the check, a published heartbeat is healthy exactly when it is not stale, the
-- admission is active, the publisher was set healthy and reconciled within its time, and the kill
-- switch was read as inactive.
pub classify-make_heartbeat :
    (s : Sentinel) (g : Guard) (p : Publisher) (file : StateFile) (now later : ℕ)
    → AreMatched p s g
    → classify s g (some (make_heartbeat file now p)) later ≡ is_well s g p file now later
unfolding classify
classify-make_heartbeat s g p file now later m = elim (Bool-cases (admission_healthy g)) [
  | inl admitted ↦ rw (matched_identity s g p file now m admitted) (
      unfold make_heartbeat in
      ground (
        arith,
        m.environments,
        m.accounts,
        m.fingerprints,
        ==_refl s.own_environment,
        ==_refl s.own_account,
        ==_refl s.own_fingerprint,
      ))
  | inr refused ↦ ground (arith, refused)
]
