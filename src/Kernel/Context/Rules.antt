-- ===== src/Kernel/Context/Rules.antt =====
-- What the accessors of `KernelContext` guarantee: in every model of the assertions a constant has
-- the value of its fact, and the facts themselves are such a model. One rule for each accessor.
mod Models
mod Triples
mod Reads
mod Constants
pub use Models.*
pub use Triples.*
pub use Reads.*
pub use Constants.*
