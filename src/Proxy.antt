-- ===== src/Proxy.antt =====
-- The proxy server between the virtual DLL and the tunnel: its caches, its checks of frames and its
-- authentication (vci_proxy/reverse_server.py, auth.py).
pub mod Caches
pub mod Auth
pub mod StepFlow
pub mod Tunnel
pub mod Tests
