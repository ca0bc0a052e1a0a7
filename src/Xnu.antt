-- ===== src/Xnu.antt =====
-- macos/process/xnu_footprint_demo.cpp, and the two programs that repeat parts of it:
-- file_mapping_dirty_demo.cpp (DirtyFile) and mach_shared_memory_demo.cpp (Mach).
pub mod Memory
pub mod Pressure
pub mod FileMapping
pub mod DirtyFile
pub mod Mach
pub mod IoKit
pub mod Sharing
pub mod Shared
pub mod SysV
pub use Memory.*
pub use Pressure.*
pub use FileMapping.*
pub use Sharing.*
pub use Shared.*
pub use SysV.*
