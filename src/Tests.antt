-- ===== src/Tests.antt =====
-- The theorems applied to concrete inputs.
pub mod DictTests
pub mod CodecsTests
pub mod BlockTests
pub mod RequestParserTests
pub mod RequestTests
pub mod ResponseTests
pub mod HandlerTests
pub mod MultipartTests
pub mod PollerTests
pub mod WebsocketTests
pub mod SessionsMemTests
