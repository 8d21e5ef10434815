-- ===== src/Informer/Samples.antt =====
-- Informers at concrete inputs.
use synchrotron.Base.{ℕ, ◌≡◌, refl, List, [], ◌∷◌, ◌++◌, String}
use synchrotron.Base.Result.{err}
use synchrotron.Monitor.{HealthState, up, down, is_up}
use synchrotron.Informer.{
  InformerEvent, applied, deleted, restarted, start, abort, idle, session, supervise,
}
use synchrotron.Informer.Protocol.{announce_all, session-announce_all}
use mathlib.Core.Option.{none}

abbrev seen : List (InformerEvent ℕ)
seen = restarted (1 ∷ 2 ∷ []) ∷ applied 3 ∷ deleted 1 ∷ restarted [] ∷ []

session-announce_all_example :
    session {E = String} none (announce_all seen ++ err "410" ∷ []) ≡ seen
session-announce_all_example = session-announce_all seen [] "410"

abbrev states : List HealthState
states = up ∷ up ∷ down 2 "refused" ∷ up ∷ []

supervised : supervise idle states ≡ start ∷ abort ∷ start ∷ abort ∷ []
unfolding supervise is_up
supervised = refl
