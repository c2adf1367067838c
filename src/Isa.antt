-- ===== src/Isa.antt =====
-- include/qsbit/isa.hpp and src/isa.cpp, with contracts/include/qsbit/contracts/isa.hpp: the RV32I
-- decoder and the evaluation of one instruction. `decode` is in the child `Decode`, `evaluate` in
-- `Evaluate`.
mod Defs
pub mod SignExtend
pub mod Decode
pub mod Evaluate
unfoldable pub use Defs.*
