-- ===== src/Util.antt =====
-- util/ and include/util_list.h: the containers that the servers are built from.
pub mod Ring
pub mod Pool
pub mod Hashtable
pub mod LruCache
pub mod Arena
