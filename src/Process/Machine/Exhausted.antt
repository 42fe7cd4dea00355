-- ===== src/Process/Machine/Exhausted.antt =====
-- A process that asks for memory when the heap has none, src/kernel/task/process.cpp.
use git_os.Heap.{Heap}
use git_os.Process.Machine.{Machine}
