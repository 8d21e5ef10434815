-- ===== src/Informer/Protocol.antt =====
-- That the sessions of crates/synchrotron-kube/src/informer/runner.rs read the watch protocol back.
use mathlib.Core.List.{append_assoc, append-nil}
use synchrotron.Base.{◌≡◌, ◌∙◌, refl, ap, none, some, List, [], ◌∷◌, ◌++◌, map}
use synchrotron.Base.Result.{Result, ok, err}
use synchrotron.Informer.{
  InformerEvent, applied, deleted, restarted, WatchEvent, apply, delete, init, init_apply,
  init_done, session,
}

module _ {K : Type 0} where
  -- How the kube crate's watcher announces an event: a list is one object after the other,
  -- between two marks.
  pub announce : {E : Type 0} → InformerEvent K → List (Result (WatchEvent K) E)
  announce (applied obj) = ok (apply obj) ∷ []
  announce (deleted obj) = ok (delete obj) ∷ []
  announce (restarted objs) = ok init ∷ map (λ obj. ok (init_apply obj)) objs ++ ok init_done ∷ []

  pub announce_all : {E : Type 0} → List (InformerEvent K) → List (Result (WatchEvent K) E)
  announce_all [] = []
  announce_all (event ∷ events) = announce event ++ announce_all events

  session-listed :
      {E : Type 0} (buf objs : List K) (rest : List (Result (WatchEvent K) E))
      → session (some buf) ((map (λ obj. ok (init_apply obj)) objs ++ ok init_done ∷ []) ++ rest)
        ≡ restarted (buf ++ objs) ∷ session none rest
  unfolding session
  session-listed buf [] rest = rw (append-nil buf) refl
  session-listed buf (obj ∷ objs) rest =
      session-listed (buf ++ obj ∷ []) objs rest
      ∙ ap (λ l. restarted l ∷ session none rest) (append_assoc buf (obj ∷ []) objs)

  -- A session turns what a watch announces back into the events announced, each list into one
  -- restart with all of its objects in order, and drops whatever follows the first error.
  pub session-announce_all :
      {E : Type 0} (events : List (InformerEvent K)) (rest : List (Result (WatchEvent K) E)) (e : E)
      → session none (announce_all events ++ err e ∷ rest) ≡ events
  unfolding session announce_all announce
  session-announce_all [] rest e = refl
  session-announce_all (applied obj ∷ events) rest e =
      ap (λ l. applied obj ∷ l) (session-announce_all events rest e)
  session-announce_all (deleted obj ∷ events) rest e =
      ap (λ l. deleted obj ∷ l) (session-announce_all events rest e)
  session-announce_all (restarted objs ∷ events) rest e =
      ap (session (some [])) (
        append_assoc (map (λ obj. ok (init_apply obj)) objs ++ ok init_done ∷ [])
          (announce_all events) (err e ∷ rest))
      ∙ session-listed [] objs (announce_all events ++ err e ∷ rest)
      ∙ ap (λ l. restarted objs ∷ l) (session-announce_all events rest e)
