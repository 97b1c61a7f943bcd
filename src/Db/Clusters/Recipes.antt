-- ===== src/Db/Clusters/Recipes.antt =====
-- What update_cluster_template of magnum/db/sqlalchemy/api.py leaves of a ClusterTemplate that is
-- referenced.
use magnum.Common.{ℕ, Bool, String, Option}
use magnum.Objects.{Dict, ClusterTemplate}

-- What a cluster is built from: all of a ClusterTemplate but its id, its name, its visibility, and
-- whose it is.
abbrev pub Recipe : Type 0
Recipe =
    String
    × Option String
    × Option String
    × Option String
    × Option ℕ
    × Option String
    × Option String
    × Option String
    × Option String
    × Bool
    × Bool
    × String
    × String
    × String
    × Option Dict

abbrev pub recipe : ClusterTemplate → Recipe
recipe t = (
  t.uuid, t.image_id, t.flavor_id, t.master_flavor_id, t.docker_volume_size, t.keypair_id,
  t.external_network_id, t.fixed_network, t.fixed_subnet, t.floating_ip_enabled,
  t.master_lb_enabled, t.server_type, t.cluster_distro, t.coe_name, t.labels,
)
