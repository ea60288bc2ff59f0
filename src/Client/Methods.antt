-- ===== src/Client/Methods.antt =====
-- The other calls that `Backend` in resources/static/client.js offers, by what they are for. A value
-- in a path is a text that is given; a parameter, a field of a form or a body that is left out is
-- `none`; a body and the parameter `thumb` are their JSON texts.
pub mod Albums
pub mod AlbumFiles
pub mod Editing
pub mod Positions
pub mod Help
pub mod Images
pub mod Services
pub mod OpenGraph
pub mod Search
pub mod Settings
pub mod Statistics
pub mod Files
pub mod Shown
mod Tests
