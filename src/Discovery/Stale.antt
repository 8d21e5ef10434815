-- ===== src/Discovery/Stale.antt =====
-- What the cache of crates/synchrotron-kube/src/scaler_discovery.rs can hold when the tasks run side by side.
use synchrotron.Base.{
  ◌≡◌, ◌∙◌, refl, sym, subst, inl, inr, Bool, true, false, List, [], ◌==◌, Bool-cases,
  if◌then◌else◌,
}
use synchrotron.Manifest.{Yaml}
use synchrotron.Diff.AutoIgnore.{ControllerKind, ScalerEntry, empty_cache, replace_with}
use synchrotron.Discovery.{
  ControllerKind_eq, on_event, values, Shared, Phase, to_write, after_event, Received, event,
  lagged, receive,
}
use synchrotron.Discovery.Tasks.{
  Tasks, set_phase, spawned_tasks, Step, receives, reads, writes, Reach, here, next,
  set_phase-other,
}

module _ (Y : Yaml) where
  -- The entries are those that the sources had at an earlier moment.
  abbrev pub WasThere : Tasks → List ScalerEntry → Type 0
  WasThere t entries =
      (past : Tasks) × Reach Y spawned_tasks past
      × Reach Y past t
      × (entries ≡ values past.shared.sources)

  WasThere-next :
      (t u : Tasks) (entries : List ScalerEntry)
      → Step Y t u
      → WasThere t entries
      → WasThere u entries
  WasThere-next t u entries step (past, first, rest, e) = (past, first, next rest step, e)

  -- The cache was filled from such entries.
  abbrev pub IsPast : Tasks → Type 0
  IsPast t =
      (entries : List ScalerEntry) × WasThere t entries
      × (t.shared.cache ≡ replace_with empty_cache entries)

  abbrev WritesPast : Tasks → Phase → Type 0
  WritesPast t p = (entries : List ScalerEntry) → p ≡ to_write entries → WasThere t entries

  -- Of the cache, and of what each task is about to write
  abbrev AllPast : Tasks → Type 0
  AllPast t = IsPast t × ((c : ControllerKind) → WritesPast t (t.phase c))

  phases-next :
      (t u : Tasks) (c : ControllerKind) (p : Phase)
      → Step Y t u
      → u.phase ≡ set_phase t.phase c p
      → WritesPast u p
      → ((k : ControllerKind) → WritesPast t (t.phase k))
      → (k : ControllerKind) → WritesPast u (u.phase k)
  phases-next t u c p step e new old k entries w =
      let at : set_phase t.phase c p k ≡ to_write entries =
        subst (λ f. f k ≡ to_write entries) e w in
      elim (Bool-cases (k == c)) [
        | inl h ↦ new entries (subst (λ b. (if b then p else t.phase k) ≡ to_write entries) h at)
        | inr h ↦
            WasThere-next t u entries step
              (old k entries (sym (set_phase-other t.phase c k p h) ∙ at))
      ]

  after_event-WritesPast : (t : Tasks) (b : Bool) → WritesPast t (after_event b)
  after_event-WritesPast t true entries e = cc
  after_event-WritesPast t false entries e = cc

  IsPast-next : (t u : Tasks) → Step Y t u → u.shared.cache ≡ t.shared.cache → IsPast t → IsPast u
  IsPast-next t u step e (entries, there, h) =
      (entries, WasThere-next t u entries step there, e ∙ h)

  receive-WritesPast :
      (t u : Tasks) (c : ControllerKind) (received : Received Y)
      → WritesPast u (receive c received t.shared).1
  receive-WritesPast t u c lagged = λ entries e. cc
  receive-WritesPast t u c (event e) = after_event-WritesPast u (on_event c e t.shared.sources).1

  receive-cache :
      (c : ControllerKind) (received : Received Y) (s : Shared)
      → (receive c received s).0.cache ≡ s.cache
  receive-cache c lagged s = refl
  receive-cache c (event e) s = refl

  advance-AllPast : (t u : Tasks) → Reach Y spawned_tasks t → Step Y t u → AllPast t → AllPast u
  unfolding replace_with
  advance-AllPast t _ r (receives c received w) (cache, entries) =
      let step : Step Y t _ = receives c received w in
      (
        IsPast-next t _ step (receive-cache c received t.shared) cache,
        phases-next t _ c _ step refl (receive-WritesPast t _ c received) entries,
      )
  advance-AllPast t _ r (reads c w) (cache, entries) =
      let step : Step Y t _ = reads c w in
      (
        IsPast-next t _ step refl cache,
        phases-next t _ c _ step refl (λ es e. (t, r, next here step, cc)) entries,
      )
  advance-AllPast t _ r (writes c es w) (cache, entries) =
      let step : Step Y t _ = writes c es w in
      (
        (es, WasThere-next t _ es step (entries c es w), refl),
        phases-next t _ c _ step refl (λ es' e. cc) entries,
      )

  reach-AllPast : (t : Tasks) → Reach Y spawned_tasks t → AllPast t
  unfolding replace_with
  reach-AllPast _ here = (([], (spawned_tasks, here, here, refl), refl), λ c entries e. cc)
  reach-AllPast v (next r step) = advance-AllPast _ v r step (reach-AllPast _ r)

  -- Whatever the order of the tasks' steps, the cache is always what it would be had it just been
  -- refreshed from the sources of some earlier moment.
  pub reach-IsPast : (t : Tasks) → Reach Y spawned_tasks t → IsPast t
  reach-IsPast t r = (reach-AllPast t r).0
