-- ===== src/Oid.antt =====
-- Object identifiers: lib/VirtualObjectIdManager.cpp, syncd/VidManager.cpp and
-- vslib/RealObjectIdManager.cpp.
pub mod Virtual
pub mod VidManager
pub mod Real
