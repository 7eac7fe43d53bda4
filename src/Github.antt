-- ===== src/Github.antt =====
-- internal/githubsource: sources of manifests on GitHub.
pub mod Url
