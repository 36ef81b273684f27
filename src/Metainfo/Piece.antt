-- ===== src/Metainfo/Piece.antt =====
-- The pieces of a torrent and their blocks (metainfo/piece.go).
pub mod Blocks
use go_bt.Prelude.{
  ℕ, zero, suc, ◌+◌, ◌-◌, ◌*◌, ◌^◌, ◌%◌, Bool, true, false, Option, none, some, List, [], ◌∷◌,
  length, ltb, ◌==◌, if◌then◌else◌,
}
use go_bt.Metainfo.Files.{Info, total_length}

abbrev pub block_size : ℕ
block_size = 16 * 1024

-- `PieceBlock`.
pub record PieceBlock : Type 0 where
  pub index : ℕ
  pub offset : ℕ
  pub length : ℕ

-- `FilePiece`.
pub record FilePiece : Type 0 where
  pub index : ℕ
  pub offset : ℕ
  pub length : ℕ

-- `Length()` of the piece `index`.
unfoldable pub piece_size : Info → ℕ → ℕ
piece_size info index =
    if index + 1 == length info.pieces
    then total_length info - index * info.piece_length
    else info.piece_length

-- The loop of `Blocks`, a `uint32` offset included. A round takes a byte at least, so that `rest`
-- rounds are enough.
unfoldable pub blocks_loop : ℕ → ℕ → ℕ → ℕ → List PieceBlock
blocks_loop zero index offset rest = []
blocks_loop (suc fuel) index offset rest =
    let size = if ltb rest 16384 then rest else 16384 in
    let more = blocks_loop fuel index ((offset + size) % 2 ^ 32) (rest - size) in
    if ltb 0 rest then record { index = index; offset = offset; length = size } ∷ more else []

-- `Blocks()`.
unfoldable pub blocks : FilePiece → List PieceBlock
blocks fp = blocks_loop fp.length fp.index fp.offset fp.length
