-- ===== src/Db/Nodegroups/Laws.antt =====
-- The nodegroup table under the operations of magnum/db/sqlalchemy/api.py.
use magnum.Common.{
  ℕ, ◌≡◌, refl, true, false, String, str_eq, eq_iff, List, [], ◌∷◌, ◌++◌, any, select, arith,
  Bool-cases, eq_of_str_eq, All, ◌⊎◌, inl, inr, if◌then◌else◌,
}
use magnum.Db.Table.{any-append_false}
use magnum.Errors.{ok, err, nodegroup_not_found}
use magnum.Objects.{NodeGroup, Database}
use magnum.Db.Tenant.{Context}
use magnum.Db.Nodegroups.{
  clashes, with_nodegroups, create_nodegroup, may_see, get_nodegroup_by_name,
}

-- Neither a uuid nor, within a cluster, a name stands twice in the nodegroup table.
abbrev pub Distinct : List NodeGroup → Type 0
Distinct [] = Unit
Distinct (n ∷ ns) = (any (clashes n) ns ≡ false) × Distinct ns

clashes_comm : (m n : NodeGroup) → clashes m n ≡ clashes n m
clashes_comm m n = ground (
  arith,
  eq_iff n.uuid m.uuid,
  eq_iff m.uuid n.uuid,
  eq_iff n.cluster_id m.cluster_id,
  eq_iff m.cluster_id n.cluster_id,
  eq_iff n.name m.name,
  eq_iff m.name n.name,
)

append-Distinct :
    (ns : List NodeGroup) (n : NodeGroup)
    → Distinct ns
    → any (clashes n) ns ≡ false
    → Distinct (ns ++ n ∷ [])
append-Distinct [] n h free = (refl, tt)
append-Distinct (x ∷ xs) n h free = (
  any-append_false (clashes x) xs n h.0 (ground (arith, clashes_comm x n)),
  append-Distinct xs n h.1 (ground arith),
)

-- create_nodegroup keeps the two constraints of the nodegroup table: no uuid stands twice, and no
-- name stands twice in one cluster.
pub create_nodegroup-Distinct :
    (i : ℕ) (u : String) (values row : NodeGroup) (d d' : Database)
    → Distinct d.nodegroups
    → create_nodegroup i u values d ≡ ok (row, d')
    → Distinct d'.nodegroups
unfolding create_nodegroup
create_nodegroup-Distinct i u values row d d' h e =
    let uuid = if str_eq values.uuid "" then u else values.uuid in
    let new : NodeGroup = record values { id = i; uuid = uuid } in
    elim (Bool-cases (any (clashes new) d.nodegroups)) [
      | inl taken ↦ absurd (cc (rw taken at e))
      | inr free ↦
          let stored : with_nodegroups d (d.nodegroups ++ new ∷ []) ≡ d' = ground arith in
          rw (← stored) (append-Distinct d.nodegroups new h free)
    ]

module _ (ctx : Context) (cluster_id name : String) where
  abbrev Named : NodeGroup → Type 0
  Named n = (str_eq n.name name ≡ true) × (str_eq n.cluster_id cluster_id ≡ true)

  abbrev named : List NodeGroup → List NodeGroup
  named ns = select (λ n. str_eq n.name name) (select (may_see ctx cluster_id) ns)

  named-All : (ns : List NodeGroup) → All Named (named ns)
  unfolding may_see
  named-All [] = tt
  named-All (n ∷ ns) = ground (arith, named-All ns)

  named_rest :
      (n : NodeGroup) (ns : List NodeGroup) → Named n → any (clashes n) ns ≡ false → named ns ≡ []
  unfolding may_see
  named_rest n [] h free = refl
  named_rest n (m ∷ ms) h free = ground (
    arith,
    named_rest n ms h,
    eq_iff n.name name,
    eq_iff n.cluster_id cluster_id,
    eq_iff m.name name,
    eq_iff m.cluster_id cluster_id,
    eq_iff m.name n.name,
    eq_iff m.cluster_id n.cluster_id,
  )

  named_unique :
      (ns : List NodeGroup)
      → Distinct ns
      → (named ns ≡ []) ⊎ ((n : NodeGroup) × (named ns ≡ n ∷ []))
  unfolding may_see
  named_unique [] h = inl refl
  named_unique (n ∷ ns) h = elim (Bool-cases (may_see ctx cluster_id n)) [
    | inl seen ↦ elim (Bool-cases (str_eq n.name name)) [
      | inl same ↦ inr (n, rw (seen, same, named_rest n ns (same, ground arith) h.0))
      | inr other ↦ rw (seen, other) (named_unique ns h.1)
    ]
    | inr unseen ↦ rw unseen (named_unique ns h.1)
  ]

  -- With the constraints of the nodegroup table a name is never ambiguous within a cluster:
  -- get_nodegroup_by_name answers a nodegroup of that cluster and name, or NodeGroupNotFound, and
  -- never the conflict of several nodegroups with one name.
  pub get_nodegroup_by_name_unambiguous :
      (d : Database)
      → Distinct d.nodegroups
      → ((n : NodeGroup) × (get_nodegroup_by_name ctx cluster_id name d ≡ ok n)
          × (n.name ≡ name)
          × (n.cluster_id ≡ cluster_id))
        ⊎ (get_nodegroup_by_name ctx cluster_id name d ≡ err (nodegroup_not_found name))
  unfolding get_nodegroup_by_name
  get_nodegroup_by_name_unambiguous d h = elim (named_unique d.nodegroups h) [
    | inl nothing ↦ inr (rw nothing)
    | inr (n, only) ↦
        let both : All Named (n ∷ []) = rw only at (named-All d.nodegroups) in
        inl (n, rw only, eq_of_str_eq both.0.0, eq_of_str_eq both.0.1)
  ]
