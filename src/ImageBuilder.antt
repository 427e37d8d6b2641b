-- ===== src/ImageBuilder.antt =====
-- The image builder, prow/cmd/image-builder: a controller that clones a repository and builds images in
-- pods, one group of pods after the other.
pub mod Options
pub mod Pods
pub mod Controller
mod Examples
