-- ===== src/Api/NodeGroups/Laws.antt =====
-- Which requests of magnum/api/controllers/v1/nodegroup.py reach the conductor.
use magnum.Common.{
  ℕ, ◌≤◌, ◌≡◌, ◌≢◌, refl, sym, ap, ◌∙◌, true, false, String, str_eq, eq_iff, Option, none, some,
  List, ◌⊎◌, arith, contains, map, or_else, if◌then◌else◌,
}
use magnum.Common.Dicts.{lookup, update, UniqueKeys, lookup-update}
use magnum.Errors.{ok, err, answer_of, ok_inj, deleting_default_ng_not_supported}
use magnum.Objects.{Dict, Cluster, NodeGroup, Database}
use magnum.Db.Tenant.{Context}
use magnum.Db.Nodegroups.{list_cluster_nodegroups, no_filters}
use magnum.Api.Resources.{
  Services, Cast, nodegroup_create, nodegroup_delete, get_cluster, get_nodegroup, project_of,
}
use magnum.Api.NodeGroups.{
  NodeGroupRequest, check_min, validate_node_count, nodegroup_labels, sent_cluster, image_of,
  check_new, new_nodegroup, post, delete,
}

-- The sizes of a nodegroup agree; an upper bound of 0 is none.
abbrev pub Agree : ℕ → ℕ → Option ℕ → Type 0
Agree size least none = least ≤ size
Agree size least (some m) = (least ≤ size) × ((m ≡ 0) ⊎ (size ≤ m))

validate_node_count-Agree :
    (name : String) (size least : ℕ) (most : Option ℕ)
    → validate_node_count name size least most ≡ ok tt
    → Agree size least most
unfolding validate_node_count check_min
validate_node_count-Agree name size least none h = ground arith
validate_node_count-Agree name size least (some m) h = (ground arith, ground arith)

-- The labels of the nodegroup and of the cluster that a message carries.
labels_of : Cast → Option Dict
labels_of (nodegroup_create _ n) = n.labels
labels_of _ = none

sent_labels_of : Cast → Option Dict
sent_labels_of (nodegroup_create c _) = c.labels
sent_labels_of _ = none

module _ (api : Services) (ctx : Context) (req : NodeGroupRequest) where
  -- The names that the cluster's nodegroups have, as far as the request sees them.
  abbrev pub taken : Cluster → Database → List String
  taken c d = map (λ (n : NodeGroup). n.name) (list_cluster_nodegroups ctx c.uuid no_filters d)

  check_new_lem :
      (c : Cluster) (d : Database)
      → check_new api ctx req c d ≡ ok tt
      → (contains req.name (taken c d) ≡ false)
        × Agree req.node_count req.min_node_count req.max_node_count
        × (str_eq req.role "master" ≡ false)
  unfolding check_new
  check_new_lem c d h = (
    ground arith,
    validate_node_count-Agree req.name req.node_count req.min_node_count req.max_node_count ground
        arith,
    ground arith,
  )

  -- What an accepted request is made of.
  accepted :
      (cluster_id : String) (d : Database) (cast : Cast)
      → post api ctx cluster_id req d ≡ ok cast
      → (c : Cluster) × (project : String) × (image_id : Option String) × (labels : Option Dict)
        × (get_cluster api ctx cluster_id d ≡ ok c)
        × (check_new api ctx req c d ≡ ok tt)
        × (nodegroup_labels req c ≡ ok labels)
        × (cast
            ≡ nodegroup_create
                (sent_cluster req c labels)
                (new_nodegroup api ctx req c project image_id labels))
  unfolding post
  accepted cluster_id d cast sent =
      let (_, _, rest1) = answer_of (api.enforce ctx "nodegroup:create" none) _ sent in
      let (c, found, rest2) = answer_of (get_cluster api ctx cluster_id d) _ rest1 in
      let (_, checked, rest3) = answer_of (check_new api ctx req c d) _ rest2 in
      let (image_id, _, rest4) = answer_of (image_of api ctx req c d) _ rest3 in
      let (labels, merged, rest5) = answer_of (nodegroup_labels req c) _ rest4 in
      let (project, _, same) = answer_of (project_of ctx) _ rest5 in
      (c, project, image_id, labels, found, checked, merged, cc same)

  -- An accepted request for a new nodegroup is sent to the conductor with a nodegroup of the cluster
  -- that the request names, which is not a master one, whose name none of the cluster's nodegroups
  -- that the request sees has, whose minimum, size and maximum (0 is none) are in this order, and
  -- which is a default nodegroup if the request says so.
  pub post_outcome :
      (cluster_id : String) (d : Database) (cast : Cast)
      → post api ctx cluster_id req d ≡ ok cast
      → (c : Cluster) × (sent : Cluster) × (n : NodeGroup) × (get_cluster api ctx cluster_id d
          ≡ ok c)
        × (cast ≡ nodegroup_create sent n)
        × (n.cluster_id ≡ c.uuid)
        × (n.role ≢ "master")
        × (contains n.name (taken c d) ≡ false)
        × Agree n.node_count n.min_node_count n.max_node_count
        × (n.is_default ≡ req.is_default)
  unfolding new_nodegroup
  post_outcome cluster_id d cast sent =
      let (c, project, image_id, labels, found, checked, _, same) =
        accepted cluster_id d cast sent in
      let (free, agree, worker) = check_new_lem c d checked in
      (
        c,
        sent_cluster req c labels,
        new_nodegroup api ctx req c project image_id labels,
        found,
        same,
        refl,
        λ e. cc ((eq_iff req.role "master").1 e, worker),
        free,
        agree,
        refl,
      )

  merged_lem :
      (c : Cluster) (own labels : Dict) (new : Option Dict)
      → req.labels ≡ some own
      → req.merge_labels ≡ true
      → c.labels ≡ some labels
      → nodegroup_labels req c ≡ ok new
      → (new ≡ some (update labels own)) × ((sent_cluster req c new).labels ≡ new)
  unfolding nodegroup_labels sent_cluster
  merged_lem c own labels new has_own merge has_labels h =
      (cc (rw (has_own, merge, has_labels) at h), rw (has_own, merge))

  -- Where a request for a new nodegroup has labels and asks for merging, every label of the nodegroup
  -- has the request's value, or else the cluster's; and the cluster that is sent along has these
  -- labels in place of its own.
  pub post_merges_labels :
      (cluster_id k : String) (d : Database) (c sent : Cluster) (n : NodeGroup) (own labels : Dict)
      → req.labels ≡ some own
      → UniqueKeys own
      → req.merge_labels ≡ true
      → get_cluster api ctx cluster_id d ≡ ok c
      → c.labels ≡ some labels
      → post api ctx cluster_id req d ≡ ok (nodegroup_create sent n)
      → (new : Dict) × (n.labels ≡ some new)
        × (sent.labels ≡ some new)
        × (lookup k new ≡ or_else (lookup k own) (lookup k labels))
  unfolding new_nodegroup labels_of sent_labels_of
  post_merges_labels cluster_id k d c sent n own labels has_own once merge found has_labels done =
      let (c', project, image_id, labels', found', _, merged, same) =
        accepted cluster_id d (nodegroup_create sent n) done in
      let same_cluster : c' ≡ c = ok_inj (sym found' ∙ found) in
      let (new, into) =
        merged_lem c' own labels labels' has_own merge
          (ap (λ x. x.labels) same_cluster ∙ has_labels) merged in
      (
        update labels own,
        ap labels_of same ∙ new,
        ap sent_labels_of same ∙ (into ∙ new),
        lookup-update k labels own once,
      )

module _ (api : Services) (ctx : Context) where
  -- A deletion is sent to the conductor only for a nodegroup that is found and not a default one;
  -- for a default one DeletingDefaultNGNotSupported is raised.
  pub delete_outcome :
      (cluster_id ident : String) (d : Database) (c : Cluster) (n : NodeGroup)
      → api.enforce ctx "nodegroup:delete" none ≡ ok tt
      → get_cluster api ctx cluster_id d ≡ ok c
      → get_nodegroup api ctx c.uuid ident d ≡ ok n
      → delete api ctx cluster_id ident d ≡ (
          if n.is_default then err deleting_default_ng_not_supported else ok (nodegroup_delete c n))
  unfolding delete
  delete_outcome cluster_id ident d c n allowed found found_ng = rw allowed (rw found (rw found_ng))
