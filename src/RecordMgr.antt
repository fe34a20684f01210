-- ===== src/RecordMgr.antt =====
-- artifact/cpp/recordmgr: the containers in which the memory reclamation schemes keep records.
-- Records are pointers, which are numbers here, with 0 for NULL.
pub mod ArrayList
pub mod Block
pub mod BlockBag
mod Examples
