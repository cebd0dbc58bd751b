-- ===== src/Nginx.antt =====
-- internal/topsrv/nginx
pub mod Regex
pub mod Paths
pub mod Line
pub mod Record
pub mod Fields
pub mod UriCounters
