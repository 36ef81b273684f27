-- ===== src/Metainfo/Piece/Blocks.antt =====
-- How `Blocks` (metainfo/piece.go) cuts a piece.
use native.Mathlib.Decide.{dec_le}
use go_bt.Prelude.{
  ℕ, zero, suc, ◌+◌, ◌-◌, ◌*◌, ◌/◌, ◌%◌, ◌^◌, ◌<◌, ◌≤◌, ◌≡◌, refl, sym, subst, List, [], ◌∷◌,
  length, ltb, if◌then◌else◌, arith,
}
use go_bt.Metainfo.Piece.{block_size, PieceBlock, FilePiece, blocks_loop, blocks}

-- The blocks follow one another from `offset` on, cover `rest` bytes of the piece, and are of the
-- full size but for the last one, which is not empty.
pub data Tiles (index : ℕ) : ℕ → ℕ → List PieceBlock → Type 0 where
  done : {offset : ℕ} → Tiles index offset 0 []
  last :
      {offset rest : ℕ}
      → 0 < rest
      → rest ≤ block_size
      → Tiles index offset rest (record { index = index; offset = offset; length = rest } ∷ [])
  full :
      {offset rest : ℕ} {bs : List PieceBlock}
      → block_size < rest
      → Tiles index (offset + block_size) (rest - block_size) bs
      → Tiles index offset rest
          (record { index = index; offset = offset; length = block_size } ∷ bs)

loop-none : (fuel index offset rest : ℕ) → rest ≡ 0 → blocks_loop fuel index offset rest ≡ []
unfolding blocks_loop
loop-none zero index offset rest e = refl
loop-none (suc fuel) index offset rest e = ground arith

-- The size of the next block.
abbrev pub next_size : ℕ → ℕ
next_size rest = if ltb rest 16384 then rest else 16384

loop-some :
    (fuel index offset rest : ℕ)
    → 0 < rest
    → blocks_loop (suc fuel) index offset rest
      ≡ record { index = index; offset = offset; length = next_size rest }
        ∷ blocks_loop fuel index ((offset + next_size rest) % 2 ^ 32) (rest - next_size rest)
unfolding blocks_loop
loop-some fuel index offset rest h = ground arith

loop-Tiles :
    (fuel index offset rest : ℕ)
    → rest ≤ fuel
    → offset + rest ≤ 2 ^ 32
    → Tiles index offset rest (blocks_loop fuel index offset rest)
loop-Tiles zero index offset rest f w =
    let e : rest ≡ 0 = omega arith in
    subst (λ r. Tiles index offset r (blocks_loop zero index offset rest)) (sym e)
      (subst (Tiles index offset 0) (sym (loop-none zero index offset rest e)) done)
loop-Tiles (suc fuel) index offset rest f w = elim (dec_le rest 0) [
  | yes z ↦
      let e : rest ≡ 0 = omega arith in
      subst (λ r. Tiles index offset r (blocks_loop (suc fuel) index offset rest)) (sym e)
        (subst (Tiles index offset 0) (sym (loop-none (suc fuel) index offset rest e)) done)
  | no z ↦
      subst (Tiles index offset rest) (sym (loop-some fuel index offset rest (omega arith)))
        (elim (dec_le rest block_size) [
          | yes l ↦
              let s : next_size rest ≡ rest = ground arith in
              let n =
                loop-none fuel index ((offset + next_size rest) % 2 ^ 32) (rest - next_size rest)
                  (omega (arith, s)) in
              rw (n, s) (last (omega arith) l)
          | no l ↦
              let s : next_size rest ≡ block_size = ground arith in
              let o : (offset + next_size rest) % 2 ^ 32 ≡ offset + block_size = omega (arith, s) in
              let more =
                loop-Tiles fuel index (offset + block_size) (rest - block_size) (omega arith)
                  (omega arith) in
              rw (o, s) (full (omega arith) more)
        ])
]

-- The blocks of a piece that lies below 2^32 follow one another from its offset on without a gap,
-- cover exactly its length, and have 16384 bytes each but for the last one, which has at least one.
pub blocks-Tiles :
    (fp : FilePiece)
    → fp.offset + fp.length ≤ 2 ^ 32
    → Tiles fp.index fp.offset fp.length (blocks fp)
unfolding blocks
blocks-Tiles fp h = loop-Tiles fp.length fp.index fp.offset fp.length (omega arith) h

Tiles-length :
    (index offset rest : ℕ) (bs : List PieceBlock)
    → Tiles index offset rest bs
    → (length bs * block_size < rest + block_size) × (rest ≤ length bs * block_size)
Tiles-length index offset rest bs done = (omega arith, omega arith)
Tiles-length index offset rest bs (last h l) = (omega arith, omega arith)
Tiles-length index offset rest bs (full h t) =
    let (lo, hi) = Tiles-length index (offset + block_size) (rest - block_size) _ t in
    (omega arith, omega arith)

-- The number of blocks is the length of the piece over 16384, rounded up.
pub length-blocks :
    (fp : FilePiece)
    → fp.offset + fp.length ≤ 2 ^ 32
    → length (blocks fp) ≡ (fp.length + (block_size - 1)) / block_size
length-blocks fp h =
    let (lo, hi) = Tiles-length fp.index fp.offset fp.length (blocks fp) (blocks-Tiles fp h) in
    omega arith
