-- ===== src/EventTrigger/Dispatch.antt =====
-- What the events of crates/synchrotron-reconcile/src/trigger.rs leave in the pool.
use synchrotron.Base.{
  ℕ, ◌≡◌, ◌<◌, refl, sym, ap, ◌∙◌, Bool-cases, inl, inr, subst, Bool, true, false, not, ◌||◌, ◌&&◌,
  Option, none, some, List, [], ◌∷◌, ◌++◌, String, String_eq, ◌==◌, arith, if◌then◌else◌, is_empty,
  contains, if_cases, eq_self,
}
use mathlib.Core.List.{append-nil}
use synchrotron.Base.Map.{get, get-insert}
use synchrotron.Pool.{
  Pool, JobCtx, Trigger, poll, webhook, manual, ok, or_default, accept, enqueue_coalesce, Result,
}
use synchrotron.Pool.Validity.Enqueue.{enqueue_impl-IsValid}
use synchrotron.Pool.Coalescing.{is_scheduled, enqueue_coalesce_exact}
use synchrotron.AutoHeal.Ticks.{Takes}
use synchrotron.EventTrigger.{
  SystemEvent, repo_changed, repo_unchanged, repo_fetch_failed, webhook_triggered, sync_outcome,
  manual_sync_requested, app_changed, app_health_assessed, targets, enqueue_all, enqueue_targets,
  dispatch_event,
}

abbrev pub queue_of : Pool → String → List JobCtx
queue_of p app = or_default (get p.state.apps app)

-- `q` schedules what `p` does and the app if `named`. The app's queue in `q` is that in `p`, and one
-- job of this trigger more if it is named and `p` does not schedule it.
abbrev pub Schedules : Bool → Trigger → String → Pool → Pool → Type 0
Schedules named trigger app p q =
    (is_scheduled q app ≡ (is_scheduled p app || named))
    × ((now : ℕ) × (queue_of q app
          ≡ queue_of p app
            ++ (if named && not (is_scheduled p app)
                then record { app_id = app; trigger = trigger; enqueued_at = now } ∷ []
                else [])))

queued : (q : List JobCtx) (job : JobCtx) → is_empty (q ++ job ∷ []) ≡ false
queued [] job = refl
queued (x ∷ q) job = refl

kept :
    (m s : Bool) (q q' l : List JobCtx)
    → s ≡ true
    → q' ≡ q ++ (if m && not s then l else [])
    → q' ≡ q
kept true s q q' l e d = d ∙ rw e (append-nil q)
kept false s q q' l e d = d ∙ append-nil q

-- Two steps one after the other, by what each does to whether the app is scheduled and to its queue.
compose :
    (s n m s' s'' : Bool) (q q' q'' : List JobCtx) (job : ℕ → JobCtx) (now later : ℕ)
    → s' ≡ (s || n)
    → s'' ≡ (s' || m)
    → q' ≡ q ++ (if n && not s then job now ∷ [] else [])
    → q'' ≡ q' ++ (if m && not s' then job later ∷ [] else [])
    → (s'' ≡ (s || (n || m)))
      × ((t : ℕ) × (q'' ≡ q ++ (if (n || m) && not s then job t ∷ [] else [])))
compose true n m s' s'' q q' q'' job now later a b c d = (
  ground arith,
  (
    now,
    kept m s' q' q'' _ a d
        ∙ kept n true q q' _ refl c
        ∙ sym (kept (n || m) true q _ (job now ∷ []) refl refl),
  ),
)
compose false true m s' s'' q q' q'' job now later a b c d =
    (ground arith, (now, kept m s' q' q'' _ a d ∙ c))
compose false false m s' s'' q q' q'' job now later a b c d = (
  ground arith,
  (
    later,
    subst (λ b. q'' ≡ q' ++ (if m && not b then job later ∷ [] else [])) a d
        ∙ ap (λ l. l ++ (if m && true then job later ∷ [] else [])) (c ∙ append-nil q),
  ),
)

accepted-Schedules :
    (p : Pool) (app : String) (trigger : Trigger) (now : ℕ)
    → is_scheduled p app ≡ false
    → Schedules true trigger app p (accept p app trigger now)
unfolding accept
accepted-Schedules p app trigger now idle = (
  rw (get-insert, eq_self app)
      (ground (
        arith,
        queued (queue_of p app) (record { app_id = app; trigger = trigger; enqueued_at = now }),
      )),
  (now, rw (get-insert, eq_self app, idle) refl),
)

accept-Schedules :
    (p : Pool) (app : String) (trigger : Trigger) (now : ℕ) (other : String)
    → is_scheduled p app ≡ false
    → Schedules (app == other) trigger other p (accept p app trigger now)
unfolding accept
accept-Schedules p app trigger now other idle = elim (Bool-cases (app == other)) [
  | inl h ↦
      subst (λ o. Schedules (app == o) trigger o p (accept p app trigger now))
        ((String_eq.decides app other).0 h)
        (rw (eq_self app) (accepted-Schedules p app trigger now idle))
  | inr h ↦ rw (get-insert, h) (ground arith, (now, sym (append-nil _)))
]

merged-Schedules :
    (p : Pool) (app : String) (trigger : Trigger) (other : String)
    → is_scheduled p app ≡ true
    → Schedules (app == other) trigger other p p
merged-Schedules p app trigger other taken = elim (Bool-cases (app == other)) [
  | inl h ↦
      subst (λ o. Schedules (app == o) trigger o p p) ((String_eq.decides app other).0 h)
        (rw (eq_self app, taken) (refl, (0, sym (append-nil _))))
  | inr h ↦ rw h (ground arith, (0, sym (append-nil _)))
]

visit :
    (p : Pool) (app : String) (trigger : Trigger) (now : ℕ)
    → Takes p
    → Takes (enqueue_coalesce p app trigger now).1
      × ((other : String)
          → Schedules (app == other) trigger other p (enqueue_coalesce p app trigger now).1)
visit p app trigger now t = (
  (
    unfold enqueue_coalesce in enqueue_impl-IsValid p app trigger true now t.2 t.0,
    stays.0,
    stays.1,
  ),
  stays.2,
)
  where
    Stays : Result Bool × Pool → Type 0
    Stays r =
        (r.1.state.is_shutdown ≡ false)
        × (0 < r.1.config.per_app_queue_cap)
        × ((other : String) → Schedules (app == other) trigger other p r.1)

    stays : Stays (enqueue_coalesce p app trigger now)
    stays = subst Stays (sym (enqueue_coalesce_exact p app trigger now t.0 t.1 t.2)) (
        if_cases Stays (is_scheduled p app) (ok false, p) (ok true, accept p app trigger now)
          (λ h. (t.1, t.2, λ other. merged-Schedules p app trigger other h))
          (λ h. unfold accept in (t.1, t.2, λ other. accept-Schedules p app trigger now other h)))

enqueue_all-Schedules :
    (clock : ℕ → ℕ) (apps : List String) (trigger : Trigger) (now : ℕ) (p : Pool)
    → Takes p
    → Takes (enqueue_all clock apps trigger now p)
      × ((app : String)
          → Schedules (contains apps app) trigger app p (enqueue_all clock apps trigger now p))
unfolding enqueue_all
enqueue_all-Schedules clock [] trigger now p t =
    (t, λ app. (ground arith, (now, sym (append-nil _))))
enqueue_all-Schedules clock (x ∷ apps) trigger now p t =
    let v = visit p x trigger now t in
    let rest =
      enqueue_all-Schedules clock apps trigger (clock now) (enqueue_coalesce p x trigger now).1
        v.0 in
    (
      rest.0,
      λ app.
          let (s, (at, q)) = v.1 app in
          let (s', (later, q')) = rest.1 app in
          compose _ _ _ _ _ _ _ _ (λ n. record { app_id = app; trigger = trigger; enqueued_at = n })
            at later s s' q q',
    )

abbrev is_named : Option (List String × Trigger) → String → Bool
is_named none app = false
is_named (some (apps, trigger)) app = contains apps app

abbrev trigger_of : Option (List String × Trigger) → Trigger
trigger_of none = manual
trigger_of (some (apps, trigger)) = trigger

targets-Schedules :
    (clock : ℕ → ℕ) (o : Option (List String × Trigger)) (now : ℕ) (p : Pool)
    → Takes p
    → Takes (enqueue_targets clock o now p)
      × ((app : String)
          → Schedules (is_named o app) (trigger_of o) app p (enqueue_targets clock o now p))
targets-Schedules clock none now p t = (t, λ app. (ground arith, (now, sym (append-nil _))))
targets-Schedules clock (some (apps, trigger)) now p t =
    enqueue_all-Schedules clock apps trigger now p t

-- Whether an event is for an app: a change of a repo and a webhook for each app of that repo, a
-- manual sync for the app that it names, and any other event for none.
abbrev pub is_for : (String → List String) → SystemEvent → String → Bool
is_for apps_for_repo (repo_changed repo new_head) app = contains (apps_for_repo repo) app
is_for apps_for_repo (repo_unchanged repo head) app = false
is_for apps_for_repo (repo_fetch_failed repo error) app = false
is_for apps_for_repo (webhook_triggered repo source) app = contains (apps_for_repo repo) app
is_for apps_for_repo (sync_outcome outcome) app = false
is_for apps_for_repo (manual_sync_requested named) app = named == app
is_for apps_for_repo (app_changed named repo) app = false
is_for apps_for_repo (app_health_assessed named cluster status message) app = false

-- The trigger of the jobs of an event: those of a poll, of a webhook, or by hand.
abbrev pub trigger_for : SystemEvent → Trigger
trigger_for (repo_changed repo new_head) = poll
trigger_for (webhook_triggered repo source) = webhook
trigger_for _ = manual

targets-is_for :
    (apps_for_repo : String → List String) (event : SystemEvent) (app : String)
    → (is_named (targets apps_for_repo event) app ≡ is_for apps_for_repo event app)
      × (trigger_of (targets apps_for_repo event) ≡ trigger_for event)
targets-is_for apps_for_repo (repo_changed repo new_head) app = (refl, refl)
targets-is_for apps_for_repo (repo_unchanged repo head) app = (refl, refl)
targets-is_for apps_for_repo (repo_fetch_failed repo error) app = (refl, refl)
targets-is_for apps_for_repo (webhook_triggered repo source) app = (refl, refl)
targets-is_for apps_for_repo (sync_outcome outcome) app = (refl, refl)
targets-is_for apps_for_repo (manual_sync_requested named) app = (ground arith, refl)
targets-is_for apps_for_repo (app_changed named repo) app = (refl, refl)
targets-is_for apps_for_repo (app_health_assessed named cluster status message) app = (refl, refl)

-- An event that reaches a valid open pool of positive cap leaves it so. Afterwards an app is scheduled
-- exactly if it was before or the event is for it: a change of its repo, a webhook for its repo, or a
-- manual sync of the app itself. An app's queue gets one job, with the trigger poll, webhook or manual
-- after the event, if the event is for the app and it was not scheduled before; otherwise its queue
-- stays as it is.
pub dispatch_event-Schedules :
    (apps_for_repo : String → List String) (clock : ℕ → ℕ) (event : SystemEvent) (now : ℕ)
    (p : Pool)
    → Takes p
    → Takes (dispatch_event apps_for_repo clock event now p)
      × ((app : String)
          → Schedules
              (is_for apps_for_repo event app)
              (trigger_for event)
              app
              p
              (dispatch_event apps_for_repo clock event now p))
unfolding dispatch_event
dispatch_event-Schedules apps_for_repo clock event now p t =
    let all = targets-Schedules clock (targets apps_for_repo event) now p t in
    let q = enqueue_targets clock (targets apps_for_repo event) now p in
    (
      all.0,
      λ app.
          let (same, trigger) = targets-is_for apps_for_repo event app in
          subst (λ tr. Schedules (is_for apps_for_repo event app) tr app p q) trigger
            (subst (λ b. Schedules b (trigger_of (targets apps_for_repo event)) app p q) same
              (all.1 app)),
    )
