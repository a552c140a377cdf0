-- ===== src/Cache.antt =====
-- The proxy's response caches (vci_proxy/cache_read_msgs.py, cache_ioctl.py, cache_vbatt.py and
-- cache_filter_dedup.py).
pub mod ReadMsgs
pub mod Vbatt
pub mod Ioctl
pub mod FilterDedup
pub mod Tests
