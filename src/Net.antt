-- ===== src/Net.antt =====
-- util/ws.py and util/http.py: the clients that modules use for other services.
pub mod Frames
pub mod Requests
