-- ===== src/Album.antt =====
-- resources/static/album.js: the parts of `renderAlbum`.
pub mod Bounds
pub mod MapSides
pub mod Nearest
pub mod Gallery
pub mod Caption
pub mod Link
pub mod Nodes
pub mod Sprites
pub mod Map
pub mod Params
pub mod Screen
mod Tests
