-- ===== src/Heartbeat/Kill.antt =====
-- A kill and the heartbeats that are published after it, over the publications and the kill-switch
-- writes of a node.
use aiquant_trader.Prelude.{
  ℕ, zero, suc, ◌≡◌, ◌≢◌, refl, ◌∙◌, ◌⊎◌, inl, inr, Bool, true, false, ◌||◌, List, [], ◌∷◌, ◌++◌,
  leb, arith,
}
use aiquant_trader.Risk.KillSwitch.{KillSwitchRecord, StateFile, Disk, read, write}
use aiquant_trader.Risk.KillSwitch.Crash.{write-IsPartial, clear_keeps_kill}
use aiquant_trader.Sentinel.Watch.{Sentinel, Guard, classify}
use aiquant_trader.Heartbeat.{
  Publisher, make_heartbeat, published, absent, Folder, publish, read_heartbeat,
}

-- What the node shares by files: the kill switch, and the heartbeat.
pub record Node : Type 0 where
  pub disk : Disk
  pub folder : Folder

-- A publication or a write of the kill switch, stopped after some of its steps.
pub data NodeEvent : Type 0 where
  publishing : (steps now : ℕ) → Publisher → NodeEvent
  writing : (done : ℕ) → KillSwitchRecord → NodeEvent

unfoldable pub node_event : NodeEvent → Node → Node
unfolding publish write
node_event (publishing steps now p) n = record n {
  folder = publish steps n.disk.state now p n.folder;
}
node_event (writing done r) n = record n { disk = write done r n.disk }

unfoldable pub run_node : List NodeEvent → Node → Node
unfolding node_event
run_node [] n = n
run_node (e ∷ es) n = run_node es (node_event e n)

-- Every write is a kill, or stops before its audit entry.
abbrev pub NeverCleared : List NodeEvent → Node → Type 0
NeverCleared [] n = Unit
NeverCleared (publishing steps now p ∷ es) n =
    NeverCleared es (node_event (publishing steps now p) n)
NeverCleared (writing done r ∷ es) n =
    ((r.active ≡ true) ⊎ ((write done r n.disk).audit ≢ n.disk.audit ++ r ∷ []))
    × NeverCleared es (node_event (writing done r) n)

-- Whether some publication gets as far as its third step, which replaces the shared file.
abbrev pub some_published : List NodeEvent → Bool
some_published [] = false
some_published (publishing steps now p ∷ es) = leb 3 steps || some_published es
some_published (writing done r ∷ es) = some_published es

abbrev IsKilled : Disk → Type 0
IsKilled disk = (now : ℕ) → (read disk.state now).active ≡ true

-- A publication leaves the shared file alone before its third step, and then it is the new heartbeat.
publish-cases :
    (done : ℕ) (file : StateFile) (now : ℕ) (p : Publisher) (d : Folder)
    → ((leb 3 done ≡ false) × ((publish done file now p d).shared ≡ d.shared))
      ⊎ ((leb 3 done ≡ true)
          × ((publish done file now p d).shared ≡ published (make_heartbeat file now p)))
unfolding publish
publish-cases zero file now p d = inl (refl, refl)
publish-cases (suc zero) file now p d = inl (refl, refl)
publish-cases (suc (suc zero)) file now p d = inl (refl, refl)
publish-cases (suc (suc (suc zero))) file now p d = inr (refl, refl)
publish-cases (suc (suc (suc (suc zero)))) file now p d = inr (ground arith, refl)
publish-cases (suc (suc (suc (suc (suc n))))) file now p d = inr (ground arith, refl)

publish_complete :
    (file : StateFile) (now : ℕ) (p : Publisher) (d : Folder)
    → publish 4 file now p d
      ≡ record { shared = published (make_heartbeat file now p); temporary = absent }
unfolding publish
publish_complete file now p d = refl

killed_heartbeat :
    (s : Sentinel) (g : Guard) (p : Publisher) (file : StateFile) (now later : ℕ)
    → (read file now).active ≡ true
    → classify s g (read_heartbeat (published (make_heartbeat file now p))) later ≡ false
unfolding classify make_heartbeat read_heartbeat
killed_heartbeat s g p file now later killed = ground (arith, killed)

write-IsKilled :
    (done : ℕ) (r : KillSwitchRecord) (disk : Disk)
    → r.active ≡ true
    → IsKilled disk
    → IsKilled (write done r disk)
unfolding read
write-IsKilled done r disk kill killed now = elim (write-IsPartial done r disk).state [
  | inl e ↦ rw e (killed now)
  | inr e ↦ rw e kill
]

audited-IsKilled :
    (done : ℕ) (r : KillSwitchRecord) (disk : Disk)
    → r.active ≡ true
    → (write done r disk).audit ≢ disk.audit
    → IsKilled (write done r disk)
unfolding read
audited-IsKilled done r disk kill audited now =
    elim ((write-IsPartial done r disk).kill_first kill) [
      | inl same ↦ absurd (audited same)
      | inr e ↦ rw e kill
    ]

-- What the shared file of a killed node has become, from `before` to `after`.
abbrev pub ShowsKill : Sentinel → Guard → ℕ → Bool → Folder → Folder → Type 0
ShowsKill s g later any before after =
    ((any ≡ false) × (after.shared ≡ before.shared))
    ⊎ ((any ≡ true) × (classify s g (read_heartbeat after.shared) later ≡ false))

run_node-ShowsKill :
    (s : Sentinel) (g : Guard) (later : ℕ) (es : List NodeEvent) (n : Node)
    → IsKilled n.disk
    → NeverCleared es n
    → ShowsKill s g later (some_published es) n.folder (run_node es n).folder
unfolding run_node
run_node-ShowsKill s g later [] n killed clear = inl (refl, refl)
run_node-ShowsKill s g later (publishing steps now p ∷ es) n killed clear =
    let rest =
      run_node-ShowsKill s g later es (node_event (publishing steps now p) n) killed clear in
    elim (publish-cases steps n.disk.state now p n.folder) [
      | inl (early, same) ↦ elim rest [
        | inl (none_later, kept) ↦ inl (rw (early, none_later) refl, kept ∙ same)
        | inr (some_later, sick) ↦ inr (rw (early, some_later) refl, sick)
      ]
      | inr (done, new) ↦ elim rest [
        | inl (none_later, kept) ↦ inr (
          rw done refl,
          rw (kept ∙ new) (killed_heartbeat s g p n.disk.state now later (killed now)),
        )
        | inr (some_later, sick) ↦ inr (rw done refl, sick)
      ]
    ]
run_node-ShowsKill s g later (writing done r ∷ es) n killed (kept, clear) =
    run_node-ShowsKill s g later es (node_event (writing done r) n) still clear
  where
    still : IsKilled (write done r n.disk)
    still = elim kept [
      | inl kill ↦ write-IsKilled done r n.disk kill killed
      | inr unaudited ↦ λ at. clear_keeps_kill done at r n.disk (killed at) unaudited
    ]

-- A kill whose write got as far as its audit entry, wherever it stopped after that, is in every
-- heartbeat published from then on, over any publications and kill-switch writes, each stopped
-- after any of its steps, as long as none of the writes is a clearing that got as far as its own
-- audit entry. Once a publication has got as far as its third step, no sentinel finds the node
-- healthy by the shared file, at any time; before that the shared file is the one of before the kill.
pub write-run_node :
    (done : ℕ) (r : KillSwitchRecord) (n : Node) (es : List NodeEvent) (s : Sentinel) (g : Guard)
    (later : ℕ)
    → r.active ≡ true
    → (write done r n.disk).audit ≢ n.disk.audit
    → NeverCleared es (node_event (writing done r) n)
    → let after = run_node es (node_event (writing done r) n) in
      ((some_published es ≡ false) × (after.folder.shared ≡ n.folder.shared))
      ⊎ ((some_published es ≡ true)
          × (classify s g (read_heartbeat after.folder.shared) later ≡ false))
unfolding node_event
write-run_node done r n es s g later kill audited clear =
    run_node-ShowsKill s g later es (node_event (writing done r) n)
      (audited-IsKilled done r n.disk kill audited) clear
