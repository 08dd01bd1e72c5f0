-- ===== src/Serialize.antt =====
-- meta/OtaiSerialize.cpp: texts are lists of bytes.
pub mod ObjectId
pub mod Texts
pub mod Stoi
pub mod TextMaps
