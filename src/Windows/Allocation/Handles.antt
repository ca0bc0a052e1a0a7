-- ===== src/Windows/Allocation/Handles.antt =====
-- The views, handles and files of memory_allocation_demo.cpp.
use memory_demo.Os.{Os}
