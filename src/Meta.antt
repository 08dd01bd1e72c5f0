-- ===== src/Meta.antt =====
-- meta/Meta.cpp: the checks of a request before it reaches the implementation.
pub mod Checks
pub mod ObjList
pub mod Values
pub mod Create
pub mod SetGet
pub mod Calls
