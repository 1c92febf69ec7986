-- ===== src/Prelude/Strings.antt =====
-- Go strings as lists of code points, and the functions of Go's package strings that the program
-- calls. The separators that it splits by are single ASCII characters.
mod Defs
mod Laws
unfoldable pub use Defs.*
pub use Laws.*
