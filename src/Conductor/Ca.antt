-- ===== src/Conductor/Ca.antt =====
-- rotate_ca_certificate of magnum/conductor/handlers/ca_conductor.py.
pub mod Laws
use magnum.Session.{Action, try_except, ◌>>=◌, ◌>>◌}
use magnum.Session.Store.{cluster_save}
use magnum.Conductor.Driver.{Env, get_driver_for_cluster}
use magnum.Conductor.Certs.{generate_certificates_to_cluster}
use magnum.Conductor.Cluster.Update.{
  allow_update_status, check_status, save_failure, fail_update, set_in_progress,
}

unfoldable pub rotate_ca_certificate : Env → Action (Unit {0})
rotate_ca_certificate env = do
  check_status allow_update_status "Updating a cluster when status is \""
  try_except
      (do
        generate_certificates_to_cluster env.cloud
        driver ← get_driver_for_cluster env
        driver.rotate_ca_certificate
        set_in_progress)
      (λ e. do save_failure e; fail_update e)
  cluster_save
