-- ===== src/Conductor/Driver.antt =====
-- The interface Driver of magnum/drivers/common/driver.py, by which the conductor's handlers call a
-- driver, and the choice of a driver by the type of a cluster.
use magnum.Common.{ℕ, Bool, String, str_eq, ◌&&◌, Option, List, [], ◌∷◌, if◌then◌else◌}
use magnum.Errors.{Result, ok, err, cluster_type_not_supported}
use magnum.Objects.{Cluster, ClusterTemplate}
use magnum.Db.Tenant.{Context, Keystone}
use magnum.Session.{Cloud, Action, lift, ◌>>=◌}
use magnum.Session.Store.{retrieve_cluster_template}

-- What a scale manager keeps (ScaleManager.__init__ of magnum/conductor/scale_manager.py).
pub record ScaleManager : Type 0 where
  pub old_cluster : Cluster
  pub new_cluster : Cluster

-- The driver's methods. The cluster and the nodegroup are those of the session, which a driver may
-- change; the arguments are those that are left.
pub record Driver : Type 0 where
  pub create_cluster : Option ℕ → Action (Unit {0})
  pub update_cluster : Option ScaleManager → Bool → Action (Unit {0})
  pub resize_cluster : Option ScaleManager → ℕ → List String → Action (Unit {0})
  pub upgrade_cluster : ClusterTemplate → ℕ → Bool → Action (Unit {0})
  pub delete_cluster : Action (Unit {0})
  pub create_nodegroup : Action (Unit {0})
  pub update_nodegroup : Action (Unit {0})
  pub delete_nodegroup : Action (Unit {0})
  pub rotate_ca_certificate : Action (Unit {0})
  pub update_cluster_status : Bool → Action (Unit {0})
  pub get_scale_manager : Action (Option ScaleManager)

-- What `Driver.get_drivers` has collected: the drivers by server type, operating system and COE.
abbrev pub Definitions : Type 0
Definitions = List ((String × String × String) × Driver)

abbrev pub same_type : String × String × String → String × String × String → Bool
same_type (a, b, c) (x, y, z) = str_eq a x && (str_eq b y && str_eq c z)

unfoldable pub get_driver : Definitions → String → String → String → Result Driver
get_driver [] server_type os engine = err (cluster_type_not_supported server_type os engine)
get_driver ((key, driver) ∷ rest) server_type os engine =
    if same_type key (server_type, os, engine)
    then ok driver
    else get_driver rest server_type os engine

-- All that surrounds a handler: who asks, the services, and the drivers that are installed.
pub record Env : Type 0 where
  pub context : Context
  pub keystone : Keystone
  pub cloud : Cloud
  pub definitions : Definitions

module _ (env : Env) where
  -- `conductor_utils.retrieve_cluster_template(context, cluster)`
  unfoldable pub template : Action ClusterTemplate
  template = retrieve_cluster_template env.context env.keystone

  -- `Driver.get_driver_for_cluster`
  unfoldable pub get_driver_for_cluster : Action Driver
  get_driver_for_cluster = do
    ct ← template
    lift (get_driver env.definitions ct.server_type ct.cluster_distro ct.coe_name)

  -- `scale_manager.get_scale_manager`
  unfoldable pub get_scale_manager : Action (Option ScaleManager)
  get_scale_manager = do driver ← get_driver_for_cluster; driver.get_scale_manager
