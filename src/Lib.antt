-- ===== src/Lib.antt =====
-- A model of libqbz2, a compressor and decompressor for the bzip2 format, and its theorems.
--
-- Parts of the program and their files:
--
-- - Crc models: src/crctable.c, and the CRC macros of src/qbz2_internal.h. `crc32_update` is
--   BZ2_crc32_update in a build without __PCLMUL__ on a little-endian machine, with the address of
--   its buffer as an argument, since the first loop runs up to a multiple of four of it.
--   `align_loop`, `slice_loop` and `tail_loop` are its three loops, and Crc/Table and Crc/Slices hold
--   the tables of the source. Crc/Spec is the division by the generator 0x04c11db7, digit by digit,
--   which names no table.
-- - Rle models: the first run-length coding, in src/bzlib.c: init_RL, isempty_RL, add_pair_to_block,
--   flush_RL, ADD_CHAR_TO_BLOCK and the part of prepare_new_block that touches a block. BlockState
--   holds the fields of EState that they use; `block` is the written prefix of the array, so that
--   its length is `nblock`. Rle/Decode is the coding as the format defines it, read from the
--   receiving side: after four equal bytes comes a count.
-- - Bits models: the bit streams. Bits/Writer is bsNEEDW, bsW, bsPutUInt32, bsPutUChar, BZ2_bsInitWrite and
--   bsFinishWrite of src/compress.c, with `zbits` the written prefix of the array; Bits/Reader is
--   GET_BITS of src/decompress.c with its two refills, where `next_in` holds the `avail_in` bytes
--   left. Both are compared with plain sequences of binary digits (`bits`, `byte_bits`).
-- - Compress models: BZ2_bzCompress, handle_compress, copy_input_until_stop and copy_output_until_stop of
--   src/bzlib.c, on the state that Compress/Types takes from include/bzlib.h and
--   src/qbz2_internal.h. The functions work on any block coder (the record Backend), which stands
--   for BZ2_compressBlock behind its CRC; they are the clients of Rle. Null handles, which
--   BZ2_bzCompress turns down first, are left out.
-- - Mtf models: makeMaps_e and generateMTFValues of src/compress.c, with the search for SSE2 and the
--   portable one (`move_sse2`, `move_portable`), of which a build has one. Mtf/Front is move to front
--   on lists.
-- - Unmtf models: makeMaps_d and, between two calls of GET_MTF_VAL, the loop of BZ2_decompress that
--   undoes that coding, in src/decompress.c. The values of GET_MTF_VAL are its input, which Huffman supplies.
-- - Decompress models: BZ2_decompress of src/decompress.c as a machine over the labels of GET_BITS, from
--   the stream header to the coding tables, and the trailer. The code between two labels is `after`.
--   A call (`parse`) restores the 24 locals from the save area of DState (`restore`, zeroed in the first
--   call of a stream), runs the switch, saves them (`save_state`) and, at BZ_STREAM_END, gives whole bytes
--   back (`give_back`). The save area, which only the two ends of a call touch, is an argument of its
--   own. The allocator is a parameter, which answers for each size. A pointer `next_in` that moves back
--   does so within the input of the call, which is where the theorems apply.
-- - Container models: the marks that BZ2_compressBlock writes round the blocks.
-- - Huffman models: src/huffman.c (BZ2_hbAssignCodes, BZ2_hbCreateDecodeTables), the loop before their
--   calls that finds the least and the greatest length (Huffman/Range), GET_MTF_VAL (Huffman/Decode),
--   the look-up in decode_fast and decode_overflow (Huffman/Fast; the tables are parameters)
--   and the loop over the symbols of a block (Huffman/Body) of src/decompress.c, and the part of
--   sendMTFValues of src/compress.c that sends the symbols (Huffman/Send). Arrays are functions; `base`
--   and `limit` hold integers, since a limit may be -1. Huffman/Counts has the canonical codes.
-- - Opening models: BZ2_bzCompressInit, BZ2_bzCompressEnd, BZ2_bzDecompressInit, BZ2_bzDecompressEnd and
--   BZ2_bzBuffToBuffCompress of src/bzlib.c, the last one over Compress. The memory functions of the
--   caller are parameters, of which Opening/Owned says what they are to do: a request is answered by
--   a block or by NULL, and a block that is held can be given back.
-- - Unrle models: the loops of unRLE_obuf_to_output_FAST and unRLE_obuf_to_output_SMALL of src/bzlib.c,
--   over any source of bytes: `slow_loop` is the text that three of the four loops share, `fast_loop`
--   with its two places to go on is the fourth, whose cached variables are the fields of Run and Sink.
--   Both are measured against the decoding of Rle.
-- - Cycle models: the sources of those loops, by the macros of src/qbz2_internal.h, with BZ2_indexIntoF of
--   src/bzlib.c and the randomisation by the table of src/randtable.c, and the code of BZ2_decompress that
--   builds the links they follow.
-- - Base models: the native numbers, lists over them, binary exclusive or and or, and powers of two.
--
-- Machine words are numbers with the wrap-around written out: `% 2 ^ 64` for the shifts of bsBuff,
-- `% 2 ^ 32` for those of a CRC and for the counters of a stream. `bsLive`, `nblock` and the run
-- length are never negative in the code modelled, but for bsFinishWrite, whose last round may leave
-- a negative bsLive, which ends the loop as 0 does.
--
-- Fuel: bsNEEDW and bsFinishWrite have `bsLive` rounds, of which each takes 32 or 8 digits off; the
-- loop of GET_BITS recurs on the input. handle_compress has three rounds more than there are bytes
-- of input: a round that goes on has taken a byte, but for the first one, which may meet a full
-- block, and one after the last byte, which ends a flush. Compress/Rounds counts them. The parser has
-- one round more than there are digits, of which each round takes one at least. A run of zeros has no
-- more symbols than zeros, and the search for SSE2 no more rounds than there are entries.
--
-- The loop of GET_MTF_VAL has the 21 - zn rounds after which its test of zn fails; the loop over the
-- symbols of a block has as many rounds as there are symbols.
--
-- The slow and the fast output loop read a run of the block in each round, so that one round more than
-- there are bytes is enough. The search of BZ2_indexIntoF halves 256 entries, with as many rounds; the
-- reversal of the pointers has its fuel as an argument.
--
-- Not modelled: the choice of code lengths (BZ2_hbMakeCodeLengths and the first part of
-- sendMTFValues), the maps, selectors and lengths that it sends, the code that fills the tables
-- decode_fast and decode_overflow, the loop of BZ2_bzDecompress round the parser and the output, block
-- sorting, the other wrappers for buffers and files, messages, and src/crc32_pclmul.c, which replaces
-- the slices in a build with __PCLMUL__. src/libsais.c is another project's library.
pub mod Base
pub mod Crc
pub mod Rle
pub mod Bits
pub mod Compress
pub mod Mtf
pub mod Unmtf
pub mod Decompress
pub mod Container
pub mod Huffman
pub mod Opening
pub mod Unrle
pub mod Cycle
