-- ===== src/Server/Pollers/Counts.antt =====
-- What the counters over a version's task queues say.
use mathlib.Core.Path.{subst}
use temporal_worker_controll.Base.{
  ℕ, suc, Text, Option, none, some, List, [], ◌∷◌, length, eqb, Bool, true, false, ◌≡◌, ◌≤◌, ◌↔◌,
  ◌⊎◌, inl, inr, refl, sym, ap, ◌∙◌, some-eq-some, Elem, arith,
}
use temporal_worker_controll.Server.Client.{PollerMode, TaskQueueType, TaskQueueInfo, Server}
use temporal_worker_controll.Server.Pollers.{
  get_pollers, any_unversioned, none_versioned, count_if, count_task_queues, has_unversioned_poller,
  has_no_versioned_pollers, no_task_queues_have_versioned_pollers,
  all_task_queues_have_unversioned_poller,
}

-- The test succeeded, with the answer true, for each of the task queues.
abbrev pub IsTrueOfAll : (TaskQueueInfo → Option Bool) → List TaskQueueInfo → Type 0
IsTrueOfAll test tqs = (tq : TaskQueueInfo) → Elem tq tqs → test tq ≡ some true

count_task_queues-le :
    (test : TaskQueueInfo → Option Bool) (tqs : List TaskQueueInfo)
    → count_task_queues test tqs ≤ length tqs
unfolding count_task_queues
count_task_queues-le test [] = omega arith
count_task_queues-le test (tq ∷ tqs) = by_result (test tq) (count_task_queues-le test tqs)
  where
    by_result : (r : Option Bool) {n m : ℕ} → n ≤ m → count_if r n ≤ suc m
    by_result (some true) h = omega arith
    by_result (some false) h = omega arith
    by_result none h = omega arith

all_counted :
    (test : TaskQueueInfo → Option Bool) (tqs : List TaskQueueInfo)
    → count_task_queues test tqs ≡ length tqs
    → IsTrueOfAll test tqs
unfolding count_task_queues
all_counted test [] h tq at = absurd at
all_counted test (x ∷ tqs) h tq at = first (test x) refl (λ e. all_counted test tqs e tq) h at
  where
    first :
        (r : Option Bool)
        → test x ≡ r
        → (count_task_queues test tqs ≡ length tqs → Elem tq tqs → test tq ≡ some true)
        → count_if r (count_task_queues test tqs) ≡ suc (length tqs)
        → (tq ≡ x) ⊎ Elem tq tqs
        → test tq ≡ some true
    first (some true) e rest h (inl same) = rw same e
    first (some true) e rest h (inr inside) = rest (omega arith) inside
    first (some false) e rest h at = absurd (omega (arith, count_task_queues-le test tqs))
    first none e rest h at = absurd (omega (arith, count_task_queues-le test tqs))

counted_of_all :
    (test : TaskQueueInfo → Option Bool) (tqs : List TaskQueueInfo)
    → IsTrueOfAll test tqs
    → count_task_queues test tqs ≡ length tqs
unfolding count_task_queues
counted_of_all test [] h = refl
counted_of_all test (x ∷ tqs) h =
    rw (h x (inl refl), counted_of_all test tqs (λ tq at. h tq (inr at)))

-- The answer to asking for the pollers of a task queue: only workflow and activity queues are asked
-- for, and a queue of another type has none.
abbrev pub IsAnswered : Server → Text → TaskQueueInfo → List PollerMode → Type 0
IsAnswered server b tq ps = elim tq.kind as (λ _. Type 0) [
  | TaskQueueType.workflow ↦ server.describe_task_queue b tq ≡ some ps
  | TaskQueueType.activity ↦ server.describe_task_queue b tq ≡ some ps
  | TaskQueueType.other ↦ ps ≡ []
]

abbrev pub NoneVersioned : List PollerMode → Type 0
NoneVersioned ps = Elem PollerMode.versioned ps → ⊥

-- A poller that is not versioned: its mode is Unversioned or not specified.
abbrev pub SomeUnversioned : List PollerMode → Type 0
SomeUnversioned ps = Elem PollerMode.unversioned ps ⊎ Elem PollerMode.unspecified ps

-- For each task queue the call for its pollers is answered, with pollers that have the property.
abbrev pub AllAnswered : (List PollerMode → Type 0) → Server → Text → List TaskQueueInfo → Type 0
AllAnswered P server b tqs =
    (tq : TaskQueueInfo) → Elem tq tqs → (ps : List PollerMode) × IsAnswered server b tq ps × P ps

get_pollers_iff :
    (server : Server) (b : Text) (tq : TaskQueueInfo) (ps : List PollerMode)
    → (get_pollers server b tq ≡ some ps) ↔ IsAnswered server b tq ps
unfolding get_pollers
get_pollers_iff server b tq ps = by_kind tq.kind
  where
    by_kind :
        (kind : TaskQueueType)
        → ((elim kind as (λ _. Option (List PollerMode)) [
          | TaskQueueType.workflow ↦ server.describe_task_queue b tq
          | TaskQueueType.activity ↦ server.describe_task_queue b tq
          | TaskQueueType.other ↦ some []
        ])
            ≡ some ps)
          ↔ (elim kind as (λ _. Type 0) [
            | TaskQueueType.workflow ↦ server.describe_task_queue b tq ≡ some ps
            | TaskQueueType.activity ↦ server.describe_task_queue b tq ≡ some ps
            | TaskQueueType.other ↦ ps ≡ []
          ])
    by_kind TaskQueueType.workflow = ((λ e. e), (λ e. e))
    by_kind TaskQueueType.activity = ((λ e. e), (λ e. e))
    by_kind TaskQueueType.other = ((λ e. sym (some-eq-some e)), (λ e. rw e))

none_versioned_iff : (ps : List PollerMode) → (none_versioned ps ≡ true) ↔ NoneVersioned ps
unfolding none_versioned
none_versioned_iff [] = ((λ h m. m), (λ h. refl))
none_versioned_iff (PollerMode.versioned ∷ ps) = ((λ h. absurd (cc)), (λ h. absurd (h (inl refl))))
none_versioned_iff (PollerMode.unversioned ∷ ps) =
    let (f, g) = none_versioned_iff ps in
    ((λ h m. elim m [ inl e ↦ absurd (cc) | inr n ↦ f h n ]), (λ h. g (λ m. h (inr m))))
none_versioned_iff (PollerMode.unspecified ∷ ps) =
    let (f, g) = none_versioned_iff ps in
    ((λ h m. elim m [ inl e ↦ absurd (cc) | inr n ↦ f h n ]), (λ h. g (λ m. h (inr m))))

any_unversioned_iff : (ps : List PollerMode) → (any_unversioned ps ≡ true) ↔ SomeUnversioned ps
unfolding any_unversioned
any_unversioned_iff [] = ((λ h. absurd (cc)), (λ h. elim h [ inl m ↦ absurd m | inr m ↦ absurd m ]))
any_unversioned_iff (PollerMode.unversioned ∷ ps) = ((λ h. inl (inl refl)), (λ h. refl))
any_unversioned_iff (PollerMode.unspecified ∷ ps) = ((λ h. inr (inl refl)), (λ h. refl))
any_unversioned_iff (PollerMode.versioned ∷ ps) =
    let (f, g) = any_unversioned_iff ps in
    (
      (λ h. elim (f h) [ inl m ↦ inl (inr m) | inr m ↦ inr (inr m) ]),
      (λ h. g (elim h as (λ _. SomeUnversioned ps) [
        | inl m ↦ elim m [ inl e ↦ absurd (cc) | inr n ↦ inl n ]
        | inr m ↦ elim m [ inl e ↦ absurd (cc) | inr n ↦ inr n ]
      ])),
    )

-- One queue: a Boolean test of its pollers that describes `P`.
IsAnswered-iff :
    (P : List PollerMode → Type 0) (test : List PollerMode → Bool)
    → ((ps : List PollerMode) → (test ps ≡ true) ↔ P ps)
    → (server : Server) (b : Text) (tq : TaskQueueInfo) (pollers : Option (List PollerMode))
    → get_pollers server b tq ≡ pollers
    → ((elim pollers as (λ _. Option Bool) [ none ↦ none | some ps ↦ some (test ps) ]) ≡ some true)
      ↔ ((ps : List PollerMode) × IsAnswered server b tq ps × P ps)
IsAnswered-iff P test iff server b tq none e = (
  (λ h. absurd (cc)),
  (λ found.
      let (ps, answered, p) = found in
      absurd (cc ((get_pollers_iff server b tq ps).1 answered, e))),
)
IsAnswered-iff P test iff server b tq (some qs) e = (
  (λ h. (qs, (get_pollers_iff server b tq qs).0 e, (iff qs).0 (some-eq-some h))),
  (λ found.
      let (ps, answered, p) = found in
      let same = some-eq-some (sym ((get_pollers_iff server b tq ps).1 answered) ∙ e) in
      ap (λ (x : Bool). some x) ((iff qs).1 (subst P same p))),
)

counter_iff :
    (test : TaskQueueInfo → Option Bool) (tqs : List TaskQueueInfo)
    → (eqb (count_task_queues test tqs) (length tqs) ≡ true) ↔ IsTrueOfAll test tqs
counter_iff test tqs = (
  (λ h. all_counted test tqs (ground arith)),
  (λ h. rw (counted_of_all test tqs h) (ground arith)),
)

-- The two answers about a version's task queues are exact. The first is true exactly when for each of
-- them the call for its pollers is answered, and none of these pollers is versioned; the second exactly
-- when for each of them it is answered, and one of these pollers is unversioned or of an unspecified
-- mode. A queue that is neither of workflows nor of activities is not asked for and has no pollers.
pub pollers_iff :
    (server : Server) (b : Text) (tqs : List TaskQueueInfo)
    → ((no_task_queues_have_versioned_pollers server b tqs ≡ true)
        ↔ AllAnswered NoneVersioned server b tqs)
      × ((all_task_queues_have_unversioned_poller server b tqs ≡ true)
          ↔ AllAnswered SomeUnversioned server b tqs)
unfolding no_task_queues_have_versioned_pollers all_task_queues_have_unversioned_poller
    has_no_versioned_pollers has_unversioned_poller
pollers_iff server b tqs =
    let none_each = λ (tq : TaskQueueInfo).
      IsAnswered-iff NoneVersioned none_versioned none_versioned_iff server b tq _ refl in
    let some_each = λ (tq : TaskQueueInfo).
      IsAnswered-iff SomeUnversioned any_unversioned any_unversioned_iff server b tq _ refl in
    let count_none = counter_iff (has_no_versioned_pollers server b) tqs in
    let count_some = counter_iff (has_unversioned_poller server b) tqs in
    (
      (
        (λ h tq at. (none_each tq).0 (count_none.0 h tq at)),
        (λ h. count_none.1 (λ tq at. (none_each tq).1 (h tq at))),
      ),
      (
        (λ h tq at. (some_each tq).0 (count_some.0 h tq at)),
        (λ h. count_some.1 (λ tq at. (some_each tq).1 (h tq at))),
      ),
    )
