-- ===== src/Rancher.antt =====
-- pkg/rancher: the images of charts and of Kubernetes releases, and the image list of a release.
pub mod ChartImages
pub mod Values
pub mod KdmImages
pub mod ListGenerator
