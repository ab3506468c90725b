-- ===== src/Resolver.antt =====
-- core/src/core/resolver: the resolvers.
pub mod Trait
pub mod System
pub mod Hickory
mod Tests
