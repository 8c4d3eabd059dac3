-- ===== src/User/Track.antt =====
-- src/user/track_data.c: the graph of the two tracks.
pub mod Node
pub mod TableA
pub mod TableB
pub mod Shape
pub mod Broken
pub mod Buffer
mod Bypass
mod Tests
