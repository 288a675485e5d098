-- ===== src/Apps/Restore.antt =====
-- The restore of an API manager: controllers/apps/apimanagerrestore_logic_reconciler.go, with
-- pkg/restore/apimanager_restore_options_provider.go and apis/apps/v1alpha1/apimanagerrestore_types.go.
-- The state is as for a backup. Parameters: the requests of Kubernetes, the write of the status, the
-- clock, how an API manager and a secret are read from an object, the decoder of a serialised API
-- manager and the objects of pkg/restore/apimanager_restore.go.
pub mod Types
pub mod Cluster
pub mod Steps
pub mod Panics
pub mod Total
