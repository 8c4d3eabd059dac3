-- ===== src/User/Navigation.antt =====
-- src/user/navigationserver.c: the server that owns the track and sends the trains.
pub mod Reserve
mod Tests
