-- ===== src/Lib.antt =====
-- Magnum provides container clusters on OpenStack. An API (magnum/api) checks a request and sends it
-- to a conductor (magnum/conductor), whose handlers keep the cluster's rows in a database
-- (magnum/db, through the objects of magnum/objects) and let a driver (magnum/drivers) build, change
-- or delete stacks of Heat. A periodic task (magnum/service/periodic.py) asks the driver how the
-- stacks are doing and brings the rows up to date.
--
-- Which file models what:
--   Common and its children   Boolean tests, lists, integers, texts and dicts that all files share.
--   Status        ClusterStatus and ClusterHealthStatus of magnum/objects/fields.py.
--   Errors        magnum/common/exception.py, with heatclient's HTTP errors, and results of calls.
--   Objects       the columns of Cluster, NodeGroup and ClusterTemplate, and the three tables.
--   Db/Table      add_identity_filter, query.one(), and what queries do to the rows of a table.
--   Db/Tenant     _add_tenant_filters of magnum/db/sqlalchemy/api.py.
--   Db/Clusters   the cluster and ClusterTemplate operations of that file, by their names (those of
--                 ClusterTemplates also in its child Templates, the lists of clusters in Lists).
--   Db/Nodegroups its nodegroup operations.
--   Db/Quotas     its quota operations, and the limit of magnum/api/controllers/v1/cluster.py.
--   Db/X509KeyPairs  its operations on key pairs.
--   Db/Services   its operations on the rows by which the processes of Magnum report.
--   Session       the state of a handler: the objects in hand, the tables, and the events, which are
--                 the calls of other services and the notifications, latest first. Session/Monad has
--                 the exceptions, Session/Store the methods of magnum/objects that reach the tables.
--   Conductor/Driver     the interface Driver and get_driver (magnum/drivers/common/driver.py).
--   Conductor/Trust, Conductor/Certs   magnum/conductor/handlers/common.
--   Conductor/Cluster/*  cluster_conductor.py of magnum/conductor/handlers: Create, Update (with the
--                 upgrade), Delete, Resize.
--   Conductor/Nodegroup, Conductor/Ca  nodegroup_conductor.py and ca_conductor.py beside it.
--   Heat/*        magnum/drivers/heat/driver.py: the names of stacks, the driver, the poller, and the
--                 driver as a value of the interface (Heat/Kubernetes). Heat/Scaling puts the
--                 handlers and this driver together.
--   Periodic      ClusterUpdateJob and ClusterHealthUpdateJob of magnum/service/periodic.py;
--                 Periodic/Sync the tasks that start them.
--   Removal       ScaleManager of magnum/conductor/scale_manager.py.
--   ServiceGroup  the reports of processes: magnum/objects/magnum_service.py,
--                 magnum/servicegroup/magnum_service_periodic.py, and how the API reads them
--                 (magnum/api/servicegroup.py, magnum/api/controllers/v1/magnum_services.py).
--   Api/Versions  Version and the versioned methods of magnum/api/controllers/versions.py and base.py.
--   Api/Validation  the checks of magnum/api/validation.py.
--   Api/OsResources  magnum/api/attr_validator.py: the checks of images, flavors and labels.
--   Api/Resources  get_resource of magnum/api/utils.py, and the messages of magnum/conductor/api.py.
--   Api/Labels    get_labels_diff of magnum/api/utils.py.
--   Api/Clusters, Api/ClusterUpdates  magnum/api/controllers/v1/cluster.py: its POST, and the rest.
--   Api/ClusterActions, Api/NodeGroups, Api/Quotas   cluster_actions.py, nodegroup.py and quota.py
--                 beside it.
--   Samples, Witnesses   concrete rows, services and drivers, and runs on them.
--
-- How the handlers are translated. A method is a function from a session to a result, with the session
-- that it leaves: an exception is a value of Error, and what was changed before it stays changed. The
-- object that a method is given is the one of the session, so an assignment to a field changes the
-- session's object and is added to its pending changes; `save` applies these to the object's row,
-- whose other columns stay, and forgets them.
-- A transaction of the database either is done or changes nothing. Heat, Keystone, the certificate
-- store and Octavia are the record Cloud: each answer is a function of all events before it, so no
-- theorem relies on what they answer unless it says so. The ids and uuids that the database and
-- oslo_utils give to new rows are such functions too.
--
-- A method of a controller is a function from the request and the tables to the message (Cast) that it
-- sends to the conductor, as the last thing that it does, or to an exception. The policy engine, the
-- tests of oslo_utils and the generators of names are the record Services, Glance, Nova and Neutron
-- are the record OpenStack, and what jsonpatch makes of a resource is an argument. The laws on a
-- controller and a handler give the message to the handler on the same tables.
--
-- Loops run over lists, so there is no fuel. Numbers are natural numbers, as the number of nodes and
-- the sizes of the program are.
--
-- Not modelled: the controllers of ClusterTemplates, certificates, federations, stats and bays; the
-- table of federations; pages of lists and the conversion to JSON; what jsonpatch
-- and the decorators of Pecan do; policies, configuration and RPC; the cryptography of certificates;
-- the template definitions of Heat (hooks of Heat/Driver), the upgrade of the Fedora driver (an
-- argument of Heat/Kubernetes) and the monitors; migrations. The payloads of notifications and the
-- parameters of stacks are left out of the events. A stack's status is one of ClusterStatus. Times
-- are modelled for the reports of processes only, the interleaving of two conductors is not.
pub mod Common
pub mod Status
pub mod Errors
pub mod Objects
pub mod Db
pub mod Session
pub mod Conductor
pub mod Heat
pub mod Periodic
pub mod Removal
pub mod ServiceGroup
pub mod Api
pub mod Samples
pub mod Witnesses
