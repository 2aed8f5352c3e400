-- ===== src/Types.antt =====
-- The custom resources of api/v1, and the parts of Kubernetes objects that the operator sets.
-- `Q` is the type of resource quantities (k8s.io/apimachinery resource.Quantity), which the
-- program parses, tests for zero and passes on, and never looks into.
mod Meta
mod Pod
mod Cluster
mod ClusterSet
pub use Meta.*
pub use Pod.*
pub use Cluster.*
pub use ClusterSet.*
