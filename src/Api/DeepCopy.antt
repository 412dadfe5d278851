-- ===== src/Api/DeepCopy.antt =====
-- api/v1/zz_generated.deepcopy.go: the deep copies of the API types, on a heap.
pub mod Heap
pub mod Structs
pub mod Copies
pub mod Detached
pub mod Laws
pub mod Resources
