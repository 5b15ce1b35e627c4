-- ===== src/Storage.antt =====
-- storage/: the manifests of written files.
pub mod Manifest
