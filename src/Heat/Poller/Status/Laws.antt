-- ===== src/Heat/Poller/Status/Laws.antt =====
-- What the aggregated status of a cluster says of its nodegroups.
use magnum.Common.{
  ◌≡◌, refl, Bool, true, false, List, [], ◌∷◌, arith, ◌⊎◌, inl, inr, if◌then◌else◌, Bool-cases,
}
use magnum.Status.{
  ClusterStatus, create_complete, create_in_progress, is, is_failed, is_progressing, is_complete,
  is_delete,
}
use magnum.Status.Laws.{status_trichotomy, eq_of_is, is_refl}
use magnum.Heat.Poller.Status.{
  NodeGroupStatus, some_status, non_default_ngs_exist, summary, aggregate_status, action_status,
}

-- A cluster turns CREATE_COMPLETE only out of its creation, or stays so: after anything else, such
-- as the deletion of a nodegroup that had been added, it is UPDATE_COMPLETE.
pub create_complete_only_after_creation :
    (previous default_ng_status : ClusterStatus) (sts : List NodeGroupStatus)
    → aggregate_status previous default_ng_status sts ≡ create_complete
    → (previous ≡ create_complete) ⊎ (previous ≡ create_in_progress)
unfolding aggregate_status
create_complete_only_after_creation previous d sts h =
    elim (Bool-cases (is previous create_complete)) [
      | inl a ↦ inl (eq_of_is previous create_complete a)
      | inr a ↦ elim (Bool-cases (is previous create_in_progress)) [
        | inl b ↦ inr (eq_of_is previous create_in_progress b)
        | inr b ↦ elim (Bool-cases (is (summary previous d sts) create_complete)) [
          | inl c ↦ absurd (cc (rw (c, a, b) at h))
          | inr c ↦ absurd (cc (rw (rw c at h, is_refl create_complete) at c))
        ]
      ]
    ]

-- The three kinds of an outcome, as the nodegroups determine them.
abbrev pub Summarises : List NodeGroupStatus → ClusterStatus → Type 0
Summarises sts st =
    (is_progressing st ≡ some_status is_progressing sts)
    × (is_failed st ≡ (if some_status is_progressing sts then false else some_status is_failed sts))

-- A nodegroup has a status of one of the three kinds.
some_kind :
    (sts : List NodeGroupStatus)
    → non_default_ngs_exist sts ≡ true
    → some_status is_progressing sts ≡ false
    → some_status is_failed sts ≡ false
    → some_status is_complete sts ≡ true
some_kind [] h p f = cc
some_kind (ns ∷ sts) h p f = elim (status_trichotomy ns.status) [
  | inl k ↦ absurd (cc (rw k.0 at p))
  | inr (inl k) ↦ absurd (ground (arith, k.1))
  | inr (inr k) ↦ rw k.2
]

-- One of the six statuses that the loop chooses from, by whether a nodegroup is in progress and
-- whether one has failed.
pick : Bool → Bool → Bool → ClusterStatus
pick progressing failed delete =
    let (p, f, c) = action_status delete in if progressing then p else if failed then f else c

chosen : List NodeGroupStatus → Bool → ClusterStatus
chosen sts delete = pick (some_status is_progressing sts) (some_status is_failed sts) delete

summary-chosen :
    (previous d : ClusterStatus) (sts : List NodeGroupStatus)
    → non_default_ngs_exist sts ≡ true
    → summary previous d sts ≡ chosen sts (is_delete d)
unfolding summary chosen pick
summary-chosen previous d sts h = elim (Bool-cases (some_status is_progressing sts)) [
  | inl p ↦ rw (p, h)
  | inr p ↦ elim (Bool-cases (some_status is_failed sts)) [
    | inl f ↦ rw (p, f, h)
    | inr f ↦ rw (p, f, h, some_kind sts h p f)
  ]
]

pick-is_not_create : (p f delete : Bool) → is (pick p f delete) create_complete ≡ false
unfolding pick
pick-is_not_create p f delete = ground arith

pick_kind :
    (p f delete : Bool)
    → (is_progressing (pick p f delete) ≡ p)
      × (is_failed (pick p f delete) ≡ (if p then false else f))
unfolding pick is_progressing is_failed
pick_kind true f true = (refl, refl)
pick_kind true f false = (refl, refl)
pick_kind false true true = (refl, refl)
pick_kind false true false = (refl, refl)
pick_kind false false true = (refl, refl)
pick_kind false false false = (refl, refl)

-- With a nodegroup besides the default ones the cluster's status sums up all of them: it is in
-- progress exactly if some nodegroup is, and otherwise failed exactly if some nodegroup has failed,
-- whatever the cluster's status was.
pub aggregate_status_outcome :
    (previous default_ng_status : ClusterStatus) (sts : List NodeGroupStatus)
    → non_default_ngs_exist sts ≡ true
    → Summarises sts (aggregate_status previous default_ng_status sts)
unfolding aggregate_status chosen
aggregate_status_outcome previous d sts h =
    let p = some_status is_progressing sts in
    let f = some_status is_failed sts in
    rw (summary-chosen previous d sts h)
      (rw (pick-is_not_create p f (is_delete d)) (pick_kind p f (is_delete d)))
