-- ===== src/Discovery/Race.antt =====
-- Two consumer tasks of crates/synchrotron-kube/src/scaler_discovery.rs that rebuild the cache at the same time.
use synchrotron.Base.{◌≡◌, ◌∙◌, refl, ap, inl, inr, true, false, ◌==◌, Bool-cases, eq_symm}
use synchrotron.Manifest.{Yaml}
use synchrotron.Informer.{InformerEvent}
use synchrotron.Diff.AutoIgnore.{ControllerKind, empty_cache, replace_with}
use synchrotron.Discovery.{
  ControllerKind_eq, DynamicObject, Sources, on_event, values, Phase, waiting, to_read, to_write,
  after_event, event, receive, rebuild,
}
use synchrotron.Discovery.Tasks.{
  Tasks, set_phase, stepped, receives, reads, writes, Reach, here, next, set_phase_self,
  set_phase-other,
}

abbrev pub AtRest : Tasks → Type 0
AtRest t = (k : ControllerKind) → t.phase k ≡ waiting

AtRest-set :
    (phase : ControllerKind → Phase) (c k : ControllerKind)
    → ((k == c) ≡ false → phase k ≡ waiting)
    → set_phase phase c waiting k ≡ waiting
AtRest-set phase c k h = elim (Bool-cases (k == c)) [ inl e ↦ rw e refl | inr e ↦ rw e (h e) ]

set-idle :
    (phase : ControllerKind → Phase) (c k : ControllerKind) (p : Phase)
    → (k == c) ≡ false
    → phase k ≡ waiting
    → set_phase phase c p k ≡ waiting
set-idle phase c k p e h = set_phase-other phase c k p e ∙ h

module _ {Y : Yaml} (t : Tasks) (c d : ControllerKind) (e f : InformerEvent (DynamicObject Y)) where
  abbrev first : Sources
  first = (on_event c e t.shared.sources).0

  abbrev both : Sources
  both = (on_event d f first).0

  abbrev received : Tasks
  received = stepped t c (receive c (event e) t.shared)

  abbrev read : Tasks
  read = stepped received c (rebuild to_read received.shared)

  abbrev other_received : Tasks
  other_received = stepped read d (receive d (event f) read.shared)

  abbrev other_read : Tasks
  other_read = stepped other_received d (rebuild to_read other_received.shared)

  abbrev other_written : Tasks
  other_written = stepped other_read d (rebuild (to_write (values both)) other_read.shared)

  abbrev written : Tasks
  written = stepped other_written c (rebuild (to_write (values first)) other_written.shared)

  -- If two events of different controllers both change the sources, there is an order of the steps
  -- that brings the tasks back to rest with both events in the sources and only the first in the
  -- cache: the task that read the sources first is the last to write.
  pub race-stale :
      AtRest t
      → (d == c) ≡ false
      → (on_event c e t.shared.sources).1 ≡ true
      → (on_event d f (on_event c e t.shared.sources).0).1 ≡ true
      → (u : Tasks) × Reach Y t u
        × AtRest u
        × (u.shared.sources ≡ (on_event d f (on_event c e t.shared.sources).0).0)
        × (u.shared.cache ≡ replace_with empty_cache (values (on_event c e t.shared.sources).0))
  unfolding replace_with
  race-stale rest other changed changed' =
      let r1 : Reach Y t received = next here (receives c (event e) (rest c)) in
      let r2 : Reach Y t read =
        next r1 (reads c (set_phase_self t.phase c _ ∙ ap after_event changed)) in
      let idle_d : read.phase d ≡ waiting =
        set-idle received.phase c d _ other (set-idle t.phase c d _ other (rest d)) in
      let r3 : Reach Y t other_received = next r2 (receives d (event f) idle_d) in
      let r4 : Reach Y t other_read =
        next r3 (reads d (set_phase_self read.phase d _ ∙ ap after_event changed')) in
      let r5 : Reach Y t other_written =
        next r4 (writes d (values both) (set_phase_self other_received.phase d _)) in
      let other' : (c == d) ≡ false = eq_symm c d ∙ other in
      let held : other_written.phase c ≡ to_write (values first) =
        set_phase-other other_read.phase d c _ other'
        ∙ set_phase-other other_received.phase d c _ other'
        ∙ set_phase-other read.phase d c _ other'
        ∙ set_phase_self received.phase c _ in
      let r6 : Reach Y t written = next r5 (writes c (values first) held) in
      (written, r6, rested, refl, refl)
    where
      rested : AtRest written
      rested k = AtRest-set other_written.phase c k λ n. AtRest-set other_read.phase d k λ m.
          set-idle other_received.phase d k _ m (
            set-idle read.phase d k _ m
              (set-idle received.phase c k _ n (set-idle t.phase c k _ n (rest k))))
