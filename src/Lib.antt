-- ===== src/Lib.antt =====
-- A model of the 3scale operator's own decisions, in Go in the repository, with theorems about them.
--
-- Parts, by the file that models them:
-- - Conditions: `pkg/apispkg/common/status_conditions.go`, the set of conditions in a custom
--   resource's status. `SetCondition` is `set_condition`, `RemoveCondition` is `remove_condition`
--   and so on, each from the old list to what it returns and the new list. The receiver pointers
--   are taken to be set, as they are where the code calls these methods.
-- - Helper.Slices and Helper.EnvVars: `pkg/helper/slice_string_utils.go` and
--   `pkg/helper/envvarutils.go`. Maps from values to amounts are association lists. A variable is
--   any type with a name and an equality, which stand for `v1.EnvVar`, its `Name` and
--   `reflect.DeepEqual`. A write through a nil pointer is `none`.
-- - Helper.Tasks: `pkg/helper/task_runner.go`, by which the controllers run their synchronisations in order.
-- - Product: `apis/capabilities/v1beta1/product_types.go`, the Product resource. Types holds its
--   structs, Defaults `SetDefaults`, References `RemoveBackendReferences`, Overlap
--   `detectOverlappingPricingRuleRanges` and Validate `Validate`.
--   Deployment holds the structs of `ProductDeploymentSpec` with their methods (Authentication,
--   Hosted and SelfManaged are those of the structs inside it), and Accessors the methods of
--   `ProductSpec` by which the controllers read them. A method that may panic returns a `Call`.
-- - Reconciler: `ReconcileResource` of `pkg/reconcilers/base_reconciler.go` over a record of the
--   client's requests, with the deletion tags of `pkg/helper/kubernetes_types.go`. Steps is the way the
--   reconcilers of `controllers/apps` chain their steps, Jobs their one-shot jobs and the deletion of
--   these, and Status the changes of a resource's status and its writes by `UpdateResourceStatus`.
-- - Reconciler.Deployment: `pkg/reconcilers/deployment.go`, the mutators that bring an existing
--   deployment to a desired one, with the merge of maps of `pkg/helper/object_meta_merger.go`. Weak and
--   Env have the mutators that go by names.
-- - Apps.Backup: `controllers/apps/apimanagerbackup_logic_reconciler.go`. A step takes the status in
--   memory and the state of the cluster; Reach is any interleaving of runs with changes from outside.
-- - Apps.Restore: `controllers/apps/apimanagerrestore_logic_reconciler.go`, in the same way. Cluster has
--   the steps that leave the status alone, Steps the others and the options.
-- - Capabilities.Credentials: `controllers/capabilities/application_credentials.go`, the secret of an
--   application.
-- - Capabilities.SyncProduct and Capabilities.Proxy: `syncProduct` of
--   `controllers/capabilities/product.go` and `syncProxy` of `controllers/capabilities/proxy.go`, with
--   the part of `pkg/controller/helper/product_entity.go` that they call. Capabilities.Params holds the
--   request's parameters that both fill. The state is what the entity has cached and the state of the
--   API, and the client's requests are functions on the latter.
-- - Capabilities.Entity: the lists of metrics and methods that `ProductEntity` of
--   `pkg/controller/helper/product_entity.go` keeps, and the requests that reset them.
-- - Capabilities.Sync: the three parts that `syncMethods` of `controllers/capabilities/methods.go` and
--   `syncMetrics` of `controllers/capabilities/metrics.go` share, over an interface of the entity's
--   calls and the parameters of each request. Capabilities.Methods and Capabilities.Metrics fill it in,
--   and the records of laws IsMethodClient and IsMetricClient are what they rely on of the API.
--   Identifiers are natural numbers.
-- A run of the product's controller calls `SetDefaults`, then `Validate`, and only then synchronises
-- the product and its proxy, for which it reads the spec by the accessors.
--
-- Numbers: the code's `int` fields are integers, ℤ of Prelude.Int. They are only compared, so they
-- do not wrap; the conversion `int32(n)` of a status that the API returned is written out. An index
-- that may be -1 is an integer too, and every other index a natural number.
-- Maps: a Go map is an association list in the order in which one iteration meets its keys, so a
-- theorem for every list holds for every order. A map that the code itself has built is iterated in
-- the order that a parameter, `reorder`, puts its entries into; Iteration says what such an order is.
-- Where the code deletes a key or assigns one, every entry of that key is meant, and a missing key
-- reads as it does in the code.
-- Loops over slices are recursion on the list. The loop of `RemoveBackendReferences` ranges over a
-- slice that it rewrites in place; `remove_loop` keeps the backing array, its index and the header
-- that each removal starts from, and has as fuel the length at which the range statement stops.
--
-- Outside the model: the clients of Kubernetes and of the 3scale API, the constructors of
-- deployments and other manifests, logging, the text of errors, and code that a generator wrote. The
-- regular expression of `SetDefaults` is a parameter, and so are whether `json.Marshal` fails on a
-- rule, the default port of an address, the digits of a number and the read of a secret. The objects
-- that `pkg/backup/apimanager_backup.go` and `pkg/restore/apimanager_restore.go` build are values of a
-- parameter type, and the decoder of a serialised API manager is a parameter. The
-- synchronisations of mapping rules, backend usages, plans and policies, the run of a product's
-- synchronisations as tasks, and the synchronisation of a backend are not modelled.
pub mod Prelude
pub mod Apps
pub mod Capabilities
pub mod Conditions
pub mod Helper
pub mod Iteration
pub mod Product
pub mod Reconciler
pub mod Tests
