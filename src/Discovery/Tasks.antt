-- ===== src/Discovery/Tasks.antt =====
-- The consumer tasks of crates/synchrotron-kube/src/scaler_discovery.rs side by side: each does one step at a
-- time, and the steps of different tasks come in any order.
use synchrotron.Base.{◌≡◌, refl, false, List, ◌==◌, if◌then◌else◌, eq_self}
use synchrotron.Manifest.{Yaml}
use synchrotron.Diff.AutoIgnore.{ControllerKind, ScalerEntry}
use synchrotron.Discovery.{
  ControllerKind_eq, Shared, spawned, Phase, waiting, to_read, to_write, Received, receive, rebuild,
}

pub record Tasks : Type 0 where
  pub shared : Shared
  pub phase : ControllerKind → Phase

abbrev pub set_phase : (ControllerKind → Phase) → ControllerKind → Phase → ControllerKind → Phase
set_phase phase c p k = if k == c then p else phase k

-- The tasks after the given one has done a step.
abbrev pub stepped : Tasks → ControllerKind → Shared × Phase → Tasks
stepped t c (shared, p) = record { shared = shared; phase = set_phase t.phase c p }

abbrev pub spawned_tasks : Tasks
spawned_tasks = record { shared = spawned; phase = λ c. waiting }

pub data Step (Y : Yaml) (t : Tasks) : Tasks → Type 0 where
  receives :
      (c : ControllerKind) (received : Received Y)
      → t.phase c ≡ waiting
      → Step Y t (stepped t c (receive c received t.shared))
  reads :
      (c : ControllerKind) → t.phase c ≡ to_read → Step Y t (stepped t c (rebuild to_read t.shared))
  writes :
      (c : ControllerKind) (entries : List ScalerEntry)
      → t.phase c ≡ to_write entries
      → Step Y t (stepped t c (rebuild (to_write entries) t.shared))

pub data Reach (Y : Yaml) (t : Tasks) : Tasks → Type 0 where
  here : Reach Y t t
  next : {u v : Tasks} → Reach Y t u → Step Y u v → Reach Y t v

pub set_phase_self :
    (phase : ControllerKind → Phase) (c : ControllerKind) (p : Phase) → set_phase phase c p c ≡ p
set_phase_self phase c p = rw (eq_self c) refl

pub set_phase-other :
    (phase : ControllerKind → Phase) (c k : ControllerKind) (p : Phase)
    → (k == c) ≡ false
    → set_phase phase c p k ≡ phase k
set_phase-other phase c k p h = rw h refl
