-- ===== src/Metainfo/Files.antt =====
-- The files of a torrent (metainfo/info.go, metainfo/file.go). Lengths and offsets are not negative
-- here. `get_file_by_offset` and its callees only subtract, and `total_length` adds lengths whose sum
-- is below 2^63, so that no `int64` wraps around.
pub mod Locate
use go_bt.Prelude.{
  ℕ, zero, suc, ◌+◌, ◌-◌, ◌*◌, Bool, true, false, Option, none, some, List, [], ◌∷◌, Bytes, ltb,
  ◌==◌, if◌then◌else◌, length,
}

pub record File : Type 0 where
  pub length : ℕ
  pub paths : List Bytes

-- `Info` with the hashes of the pieces.
pub record Info : Type 0 where
  pub name : Bytes
  pub piece_length : ℕ
  pub pieces : List Bytes
  pub length : ℕ
  pub files : List File

-- The loop of `TotalLength`.
unfoldable pub sum_lengths : ℕ → List File → ℕ
sum_lengths ret [] = ret
sum_lengths ret (f ∷ fs) = sum_lengths (ret + f.length) fs

-- `TotalLength()`.
unfoldable pub total_length : Info → ℕ
total_length info = elim info.files [ [] ↦ info.length | _ ∷ _ ↦ sum_lengths 0 info.files ]

-- `PieceOffset(index, offset)`.
unfoldable pub piece_offset : Info → ℕ → ℕ → ℕ
piece_offset info index offset = index * info.piece_length + offset

-- The loop of `GetFileByOffset` from the file `f` on, and the test behind the loop. A panic is
-- `none`.
unfoldable pub locate : File → List File → ℕ → Option (File × ℕ)
locate f [] offset =
    let rest = offset - f.length in
    if ltb offset f.length
    then some (f, offset)
    else if offset == f.length
    then some (f, offset)
    else if ltb f.length rest
    then none
    else some (f, rest)
locate f (g ∷ gs) offset =
    let next = locate g gs (offset - f.length) in
    if ltb offset f.length then some (f, offset) else next

-- `GetFileByOffset(offset)`.
unfoldable pub get_file_by_offset : Info → ℕ → Option (File × ℕ)
get_file_by_offset info offset = elim info.files [
  | [] ↦
      if ltb info.length offset
      then none
      else some (record { length = info.length; paths = info.name ∷ [] }, offset)
  | f ∷ fs ↦ locate f fs offset
]
