-- ===== src/Metainfo/Tests.antt =====
-- The theorems about metainfo at concrete inputs.
use go_bt.Prelude.{ℕ, ◌+◌, ◌-◌, ◌/◌, ◌≡◌, ◌≤◌, refl, [], ◌∷◌, length, arith}
use go_bt.Prelude.{inl, inr, some, Bytes, replicate}
use go_bt.Metainfo.Addr.{CompactAddr, marshal_v6, unmarshal_v6}
use go_bt.Metainfo.Addr.RoundTrip.{as_v6, unmarshal-marshal_v6}
use go_bt.Metainfo.Files.{File, Info, sum_lengths, total_length, get_file_by_offset}
use go_bt.Metainfo.Files.Locate.{
  Found, get_file_by_offset-Found, last_of, answer_beyond, get_file_by_offset_beyond,
}
use go_bt.Metainfo.Piece.{FilePiece, block_size, blocks}
use go_bt.Metainfo.Piece.Blocks.{Tiles, blocks-Tiles, length-blocks}

abbrev file_of : ℕ → File
file_of n = record { length = n; paths = [] }

abbrev torrent : Info
torrent = record {
  name = [];
  piece_length = 16;
  pieces = [];
  length = 0;
  files = file_of 10 ∷ file_of 20 ∷ [];
}

within : 25 ≤ total_length torrent
unfolding total_length sum_lengths
within = omega arith

get_file_by_offset-Found_example :
    Found (file_of 10 ∷ file_of 20 ∷ []) 25 (get_file_by_offset torrent 25)
get_file_by_offset-Found_example =
    get_file_by_offset-Found torrent (file_of 10) (file_of 20 ∷ []) 25 refl within

get_file_by_offset_beyond_example :
    get_file_by_offset torrent (total_length torrent + 7)
    ≡ answer_beyond (last_of (file_of 10) (file_of 20 ∷ [])) 7
get_file_by_offset_beyond_example =
    get_file_by_offset_beyond torrent (file_of 10) (file_of 20 ∷ []) 7 refl (omega arith)

abbrev piece : FilePiece
piece = record { index = 3; offset = 16384; length = 40000 }

blocks-Tiles_example : Tiles 3 16384 40000 (blocks piece)
blocks-Tiles_example = blocks-Tiles piece (omega arith)

length-blocks_example : length (blocks piece) ≡ (40000 + (block_size - 1)) / block_size
length-blocks_example = length-blocks piece (omega arith)

abbrev four : CompactAddr
four = record { ip = 10 ∷ 0 ∷ 0 ∷ 1 ∷ []; port = 6881 }

abbrev six : CompactAddr
six = record { ip = replicate 16 1; port = 6882 }

unmarshal-marshal_v6_example :
    (b : Bytes) × (marshal_v6 (four ∷ six ∷ []) ≡ some b)
    × (unmarshal_v6 b ≡ some (as_v6 (four ∷ six ∷ [])))
unmarshal-marshal_v6_example =
    unmarshal-marshal_v6 (four ∷ six ∷ []) ((inl refl, omega arith), ((inr refl, omega arith), tt))
