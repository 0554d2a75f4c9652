-- ===== src/Release.antt =====
-- release/kernel: the older copy of the kernel, where it differs. Its interrupts.cpp, stdio.cpp and
-- string.cpp are those of kernel/, and so is all of its terminal and of its allocator but for
-- `memory_get_free`; the functions of Interrupts, Stdio, CString, Terminal and Memory stand for them.
pub mod Editor
pub mod Files
pub mod Kernel
pub mod Same
pub mod Start
mod Tests
