-- ===== src/Server/Pollers.antt =====
-- The pollers of a version's task queues.
pub mod Counts
use temporal_worker_controll.Base.{
  ℕ, suc, Text, Option, none, some, List, [], ◌∷◌, length, eqb, Bool, true, false,
}
use temporal_worker_controll.Server.Client.{PollerMode, TaskQueueType, TaskQueueInfo, Server}

-- `getPollers`: a task queue of another type is not asked for and has none.
unfoldable pub get_pollers : Server → Text → TaskQueueInfo → Option (List PollerMode)
get_pollers server b tq = elim tq.kind [
  | TaskQueueType.workflow ↦ server.describe_task_queue b tq
  | TaskQueueType.activity ↦ server.describe_task_queue b tq
  | TaskQueueType.other ↦ some []
]

unfoldable pub any_unversioned : List PollerMode → Bool
any_unversioned [] = false
any_unversioned (PollerMode.unversioned ∷ ps) = true
any_unversioned (PollerMode.unspecified ∷ ps) = true
any_unversioned (PollerMode.versioned ∷ ps) = any_unversioned ps

unfoldable pub none_versioned : List PollerMode → Bool
none_versioned [] = true
none_versioned (PollerMode.unversioned ∷ ps) = none_versioned ps
none_versioned (PollerMode.unspecified ∷ ps) = none_versioned ps
none_versioned (PollerMode.versioned ∷ ps) = false

-- `HasUnversionedPoller` and `HasNoVersionedPollers`; no result is the error.
unfoldable pub has_unversioned_poller : Server → Text → TaskQueueInfo → Option Bool
has_unversioned_poller server b tq = elim (get_pollers server b tq) [
  | none ↦ none
  | some ps ↦ some (any_unversioned ps)
]

unfoldable pub has_no_versioned_pollers : Server → Text → TaskQueueInfo → Option Bool
has_no_versioned_pollers server b tq = elim (get_pollers server b tq) [
  | none ↦ none
  | some ps ↦ some (none_versioned ps)
]

-- The loops' counters: an error counts as false.
abbrev pub count_if : Option Bool → ℕ → ℕ
count_if (some true) n = suc n
count_if (some false) n = n
count_if none n = n

unfoldable pub count_task_queues : (TaskQueueInfo → Option Bool) → List TaskQueueInfo → ℕ
count_task_queues test [] = 0
count_task_queues test (tq ∷ tqs) = count_if (test tq) (count_task_queues test tqs)

-- `noTaskQueuesHaveVersionedPollers`
unfoldable pub no_task_queues_have_versioned_pollers : Server → Text → List TaskQueueInfo → Bool
no_task_queues_have_versioned_pollers server b tqs =
    eqb (count_task_queues (has_no_versioned_pollers server b) tqs) (length tqs)

-- `allTaskQueuesHaveUnversionedPoller`
unfoldable pub all_task_queues_have_unversioned_poller : Server → Text → List TaskQueueInfo → Bool
all_task_queues_have_unversioned_poller server b tqs =
    eqb (count_task_queues (has_unversioned_poller server b) tqs) (length tqs)
