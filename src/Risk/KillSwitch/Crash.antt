-- ===== src/Risk/KillSwitch/Crash.antt =====
-- What a crash during a write of the kill switch can leave on disk.
use aiquant_trader.Prelude.{
  ℕ, zero, suc, ◌≡◌, refl, sym, ◌∙◌, ◌≢◌, ◌⊎◌, inl, inr, Bool, true, false, Bool-cases, none, [],
  ◌∷◌, ◌++◌,
}
use aiquant_trader.Risk.KillSwitch.{
  KillSwitchRecord, holds, Disk, read, run_steps, file_step, write_steps, write,
}

clash : true ≡ false → ⊥
clash h = cc

-- A write has either taken force, with the record as the state, or left the state alone; and it has
-- either been audited, with the record as the last entry, or left the log alone.
pub record IsPartial (r : KillSwitchRecord) (before after : Disk) : Type 0 where
  pub state : (after.state ≡ before.state) ⊎ (after.state ≡ holds r)
  pub audit : (after.audit ≡ before.audit) ⊎ (after.audit ≡ before.audit ++ r ∷ [])
  -- a kill is in force by the time it is audited
  pub kill_first : r.active ≡ true → (after.audit ≡ before.audit) ⊎ (after.state ≡ holds r)
  -- a clearing is audited by the time it is in force
  pub audit_first :
      r.active ≡ false → (after.state ≡ before.state) ⊎ (after.audit ≡ before.audit ++ r ∷ [])

untouched :
    (r : KillSwitchRecord) (disk after : Disk)
    → after.state ≡ disk.state
    → after.audit ≡ disk.audit
    → IsPartial r disk after
untouched r disk after s a = record {
  state = inl s;
  audit = inl a;
  kill_first = λ _. inl a;
  audit_first = λ _. inl s;
}

finished :
    (r : KillSwitchRecord) (disk after : Disk)
    → after.state ≡ holds r
    → after.audit ≡ disk.audit ++ r ∷ []
    → IsPartial r disk after
finished r disk after s a = record {
  state = inr s;
  audit = inr a;
  kill_first = λ _. inr s;
  audit_first = λ _. inr a;
}

partial :
    (done : ℕ) (b : Bool) (r : KillSwitchRecord) (disk : Disk)
    → r.active ≡ b
    → IsPartial r disk (run_steps done r (write_steps b) disk)
unfolding run_steps file_step write_steps
partial zero b r disk e = untouched r disk _ refl refl
partial (suc zero) true r disk e = untouched r disk _ refl refl
partial (suc zero) false r disk e = untouched r disk _ refl refl
partial (suc (suc zero)) true r disk e = record {
  state = inr refl;
  audit = inl refl;
  kill_first = λ _. inl refl;
  audit_first = λ h. absurd (clash (sym e ∙ h));
}
partial (suc (suc zero)) false r disk e = record {
  state = inl refl;
  audit = inr refl;
  kill_first = λ h. absurd (clash (sym h ∙ e));
  audit_first = λ _. inl refl;
}
partial (suc (suc (suc zero))) true r disk e = finished r disk _ refl refl
partial (suc (suc (suc zero))) false r disk e = finished r disk _ refl refl
partial (suc (suc (suc (suc zero)))) true r disk e = finished r disk _ refl refl
partial (suc (suc (suc (suc zero)))) false r disk e = finished r disk _ refl refl
partial (suc (suc (suc (suc (suc n))))) true r disk e = finished r disk _ refl refl
partial (suc (suc (suc (suc (suc n))))) false r disk e = finished r disk _ refl refl

-- At whatever step the process stops, the record has either taken force or left the state alone,
-- and is either the last entry of the audit log or not in it. A kill that is audited is in force; a
-- clearing that is in force is audited.
pub write-IsPartial :
    (done : ℕ) (r : KillSwitchRecord) (disk : Disk) → IsPartial r disk (write done r disk)
unfolding write
write-IsPartial done r disk = partial done r.active r disk refl

-- A write that is not stopped is in force, is audited, and leaves no temporary file.
pub write_complete :
    (r : KillSwitchRecord) (disk : Disk)
    → write 4 r disk ≡ record { state = holds r; audit = disk.audit ++ r ∷ []; temporary = none }
unfolding write
write_complete r disk = complete r.active
  where
    complete :
        (b : Bool)
        → run_steps 4 r (write_steps b) disk
          ≡ record { state = holds r; audit = disk.audit ++ r ∷ []; temporary = none }
    complete true = refl
    complete false = refl

-- Over an active kill, a write that stops before it is audited leaves a kill in force.
pub clear_keeps_kill :
    (done now : ℕ) (r : KillSwitchRecord) (disk : Disk)
    → (read disk.state now).active ≡ true
    → (write done r disk).audit ≢ disk.audit ++ r ∷ []
    → (read (write done r disk).state now).active ≡ true
unfolding read
clear_keeps_kill done now r disk killed unaudited =
    let w = write-IsPartial done r disk in
    elim (Bool-cases r.active) [
      | inl kill ↦ elim w.state [ inl e ↦ rw e killed | inr e ↦ rw e kill ]
      | inr clear ↦ elim (w.audit_first clear) [
        | inl e ↦ rw e killed
        | inr e ↦ absurd (unaudited e)
      ]
    ]
