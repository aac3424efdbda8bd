-- ===== src/Number.antt =====
-- The numeric tower: gcd (inc/lib.h), casts (type_cast.c) and arithmetic (primitives.c, number.c).
pub mod Gcd
pub mod Float
pub mod Cast
pub mod Arith
pub mod Compare
pub mod Rounding
mod Tests
