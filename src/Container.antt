-- ===== src/Container.antt =====
-- sylar/config.h: containers
pub mod Loops
pub mod Yaml
pub mod Order
pub mod Sorted
pub mod Unordered
pub mod Cast
pub mod Views
pub mod RoundTrip
pub mod Maps
