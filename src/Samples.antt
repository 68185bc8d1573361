-- ===== src/Samples.antt =====
-- Concrete services, small enough to compute with: a table in memory, a Redis and a broker that are
-- lists, and providers that count their calls. They show that the interfaces can be met.
mod Table
mod Store
mod Select
mod Exchange
mod Switchboard
mod Relations
mod Installed
mod Catalogue
pub mod World
pub mod Pops
unfoldable pub use Table.{memory, blind, find}
pub use Table.{memory-Reliable}
unfoldable pub use Store.{store}
unfoldable pub use Exchange.{exchange}
unfoldable pub use Select.{selecting}
unfoldable pub use Switchboard.{board, wired, resting}
pub use Store.{store_adds}
unfoldable pub use Catalogue.{names_only, runner}
pub use Catalogue.{runner-Reachable}
