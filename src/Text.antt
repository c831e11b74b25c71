-- ===== src/Text.antt =====
-- The functions of Go's `strings` package, and `strconv.Itoa` and `hex.EncodeToString`, that the
-- daemon calls. A string is its list of code points.
pub mod Runes
pub mod Trim
pub mod Search
pub mod Numbers
pub mod Paths
unfoldable pub use Runes.*
unfoldable pub use Trim.*
unfoldable pub use Search.*
unfoldable pub use Numbers.*
unfoldable pub use Paths.*
