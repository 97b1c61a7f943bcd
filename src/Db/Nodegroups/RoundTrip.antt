-- ===== src/Db/Nodegroups/RoundTrip.antt =====
-- A nodegroup from its creation to its deletion (magnum/db/sqlalchemy/api.py).
use magnum.Common.{
  ℕ, ◌≡◌, refl, Bool, true, false, ◌&&◌, ◌||◌, String, str_eq, str_eq_refl, List, [], ◌∷◌, ◌++◌,
  any, select, arith, Bool-cases, inl, inr, if◌then◌else◌,
}
use magnum.Errors.{ok, err, nodegroup_already_exists}
use magnum.Objects.{NodeGroup, Database}
use magnum.Db.Table.{delete_where, uuid_like}
use magnum.Db.Tenant.{Context, is_text}
use magnum.Db.Nodegroups.{
  clashes, with_nodegroups, create_nodegroup, destroy_nodegroup, may_see, get_nodegroup_by_name,
  get_nodegroup_by_uuid,
}

-- What a row that clashes with no other is found by.
module _ (n : NodeGroup) where
  found_by_uuid :
      (ctx : Context) (ns : List NodeGroup)
      → any (clashes n) ns ≡ false
      → may_see ctx n.cluster_id n ≡ true
      → select (λ m. str_eq m.uuid n.uuid) (select (may_see ctx n.cluster_id) (ns ++ n ∷ []))
        ≡ n ∷ []
  found_by_uuid ctx [] free seen = rw (seen, str_eq_refl n.uuid) refl
  found_by_uuid ctx (m ∷ ms) free seen = ground (arith, found_by_uuid ctx ms)

  found_by_name :
      (ctx : Context) (ns : List NodeGroup)
      → any (clashes n) ns ≡ false
      → may_see ctx n.cluster_id n ≡ true
      → select (λ m. str_eq m.name n.name) (select (may_see ctx n.cluster_id) (ns ++ n ∷ []))
        ≡ n ∷ []
  unfolding may_see
  found_by_name ctx [] free seen = rw (seen, str_eq_refl n.name) refl
  found_by_name ctx (m ∷ ms) free seen = ground (arith, found_by_name ctx ms)

  abbrev own : NodeGroup → Bool
  own m = str_eq m.uuid n.uuid && str_eq m.cluster_id n.cluster_id

  owned : (ns : List NodeGroup) → any (clashes n) ns ≡ false → select own (ns ++ n ∷ []) ≡ n ∷ []
  owned [] free = rw (str_eq_refl n.uuid, str_eq_refl n.cluster_id) refl
  owned (m ∷ ms) free = ground (arith, owned ms)

  deleted :
      (ns : List NodeGroup) → any (clashes n) ns ≡ false → delete_where own (ns ++ n ∷ []) ≡ ns
  deleted [] free = rw (str_eq_refl n.uuid, str_eq_refl n.cluster_id) refl
  deleted (m ∷ ms) free = ground (arith, deleted ms)

  clash_of_name :
      (other : NodeGroup) (ns : List NodeGroup)
      → str_eq n.cluster_id other.cluster_id ≡ true
      → str_eq n.name other.name ≡ true
      → any (clashes other) (ns ++ n ∷ []) ≡ true
  clash_of_name other [] of named = ground arith
  clash_of_name other (m ∷ ms) of named = ground (arith, clash_of_name other ms)

  -- The row is made, and no row clashed with it.
  module _ (d : Database) (free : any (clashes n) d.nodegroups ≡ false) where
    abbrev stored : Database
    stored = with_nodegroups d (d.nodegroups ++ n ∷ [])

    name_is_taken :
        (i : ℕ) (u : String) (other : NodeGroup)
        → create_nodegroup i u (record other { cluster_id = n.cluster_id; name = n.name }) stored
          ≡ err (nodegroup_already_exists n.name n.cluster_id)
    unfolding create_nodegroup
    name_is_taken i u other =
        let uuid = if str_eq other.uuid "" then u else other.uuid in
        let again : NodeGroup = record other {
          id = i;
          uuid = uuid;
          cluster_id = n.cluster_id;
          name = n.name;
        } in
        rw (clash_of_name again d.nodegroups (str_eq_refl n.cluster_id) (str_eq_refl n.name)) refl

    destroyed : destroy_nodegroup n.cluster_id (uuid_like n.uuid) stored ≡ ok d
    unfolding destroy_nodegroup
    destroyed = rw (owned d.nodegroups free) (rw (deleted d.nodegroups free) refl)

-- A nodegroup from its creation to its deletion. One that create_nodegroup returns has the values of
-- the call, with the new id, and with a new uuid where the values have none. A request that may see
-- rows of its project finds it in the resulting tables by its uuid and by its name; another
-- nodegroup of its name in its cluster is refused with NodeGroupAlreadyExists, whatever else its
-- values are; and destroy_nodegroup, called with its uuid, gives back the tables before its creation.
pub create_nodegroup_round_trip :
    (ctx : Context) (i j : ℕ) (u v : String) (values other row : NodeGroup) (d d' : Database)
    → (ctx.is_admin || is_text ctx.project_id values.project_id) ≡ true
    → create_nodegroup i u values d ≡ ok (row, d')
    → (row ≡ record values { id = i; uuid = if str_eq values.uuid "" then u else values.uuid })
      × (get_nodegroup_by_uuid ctx row.cluster_id row.uuid d' ≡ ok row)
      × (get_nodegroup_by_name ctx row.cluster_id row.name d' ≡ ok row)
      × (create_nodegroup j v (record other { cluster_id = row.cluster_id; name = row.name }) d'
          ≡ err (nodegroup_already_exists row.name row.cluster_id))
      × (destroy_nodegroup row.cluster_id (uuid_like row.uuid) d' ≡ ok d)
unfolding create_nodegroup get_nodegroup_by_uuid get_nodegroup_by_name may_see
create_nodegroup_round_trip ctx i j u v values other row d d' visible e =
    let uuid = if str_eq values.uuid "" then u else values.uuid in
    let new : NodeGroup = record values { id = i; uuid = uuid } in
    elim (Bool-cases (any (clashes new) d.nodegroups)) [
      | inl taken ↦ absurd (cc (rw taken at e))
      | inr free ↦
          let same : row ≡ new = ground arith in
          let done : d' ≡ with_nodegroups d (d.nodegroups ++ new ∷ []) = ground arith in
          let seen : may_see ctx new.cluster_id new ≡ true =
            rw (visible, str_eq_refl values.cluster_id) refl in
          rw (same, done)
            (
              refl,
              rw (found_by_uuid new ctx d.nodegroups free seen) refl,
              rw (found_by_name new ctx d.nodegroups free seen) refl,
              name_is_taken new d free j v other,
              destroyed new d free,
            )
    ]
