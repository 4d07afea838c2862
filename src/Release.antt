-- ===== src/Release.antt =====
-- pkg/release: releases of programs to servers, containers and clusters.
pub mod Config
pub mod Merge
pub mod Retry
pub mod Engine
mod Examples
