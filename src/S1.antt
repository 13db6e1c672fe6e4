-- ===== src/S1.antt =====
-- s1/: dynamic libraries by alias.
pub mod HashDic
pub mod DlBase
pub mod DlMgr
