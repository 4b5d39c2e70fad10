-- ===== src/Container.antt =====
-- The marks round the blocks of a stream: what BZ2_compressBlock of src/compress.c writes before the
-- first block, before a block's symbols and after the last block.
pub mod Run
pub mod Trailer
mod Tests
use libqbz.Base.{ℕ, ◌+◌, List, [], ◌∷◌}
use libqbz.Bits.Writer.{Writer, init_write, write_bits, put_uchar, put_uint32, finish_write}

-- calls of bsPutUChar in a row
unfoldable pub put_bytes : Writer → List ℕ → Writer
put_bytes s [] = s
put_bytes s (b ∷ bs) = put_bytes (put_uchar s b) bs

-- the stream header, where `blockNo == 1`
unfoldable pub write_stream_header : Writer → ℕ → Writer
write_stream_header s block_size100k =
    put_bytes (init_write s) (0x42 ∷ 0x5a ∷ 0x68 ∷ (0x30 + block_size100k) ∷ [])

-- the block header, where `nblock > 0`
unfoldable pub write_block_header : Writer → ℕ → ℕ → Writer
write_block_header s block_crc orig_ptr =
    let magic = put_bytes s (0x31 ∷ 0x41 ∷ 0x59 ∷ 0x26 ∷ 0x53 ∷ 0x59 ∷ []) in
    write_bits (write_bits (put_uint32 magic block_crc) 1 0) 24 orig_ptr

-- the trailer, where `is_last_block`, before bsFinishWrite
unfoldable pub write_trailer : Writer → ℕ → Writer
write_trailer s combined_crc =
    put_uint32 (put_bytes s (0x17 ∷ 0x72 ∷ 0x45 ∷ 0x38 ∷ 0x50 ∷ 0x90 ∷ [])) combined_crc
