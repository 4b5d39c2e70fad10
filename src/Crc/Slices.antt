-- ===== src/Crc/Slices.antt =====
-- The eight tables of `crc32_s8` of src/crctable.c.
mod Low
mod High
unfoldable pub use Low.{crc32_s8_0, crc32_s8_1, crc32_s8_2, crc32_s8_3}
unfoldable pub use High.{crc32_s8_4, crc32_s8_5, crc32_s8_6, crc32_s8_7}
