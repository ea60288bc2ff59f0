-- ===== src/Viewer.antt =====
-- The image viewer of an album, in resources/static/album.js: how long an image is viewed, and the
-- address that the page shows.
pub mod Time
pub mod Address
pub mod Keys
pub mod Open
pub mod Panel
mod Tests
