-- ===== src/Prelude/Chunks.antt =====
-- Byte slices that hold entries of one size, one after the other.
use Prim.Native.Nat.{ℕ, zero, suc, ◌*◌}
use mathlib.Core.Path.{◌≡◌, refl, ap, sym, ◌∙◌}
use mathlib.Core.List.{List, [], ◌∷◌, ◌++◌, map, append_assoc}
use mathlib.Core.Option.{Option, none, some}
use native.Mathlib.Omega.{arith}
use go_bt.Prelude.Lists.{
  length, length-append, take, drop, flatten, All, take-append_length, drop-append_length,
}
use go_bt.Prelude.Words.{Bytes}

module _ {ℓ} {A : Type ℓ} where
  -- The loop over the slices `b[i : i+size]`, for a number of rounds; a read that fails ends it.
  unfoldable pub read_chunks : (Bytes → Option A) → ℕ → ℕ → Bytes → Option (List A)
  read_chunks read size zero b = some []
  read_chunks read size (suc rounds) b =
      let more = read_chunks read size rounds (drop size b) in
      elim (read (take size b)) [
        | none ↦ none
        | some x ↦ elim more [ none ↦ none | some xs ↦ some (x ∷ xs) ]
      ]

  read_chunks-step :
      (read : Bytes → Option A) (size rounds : ℕ) (b : Bytes) (x : A) (xs : List A)
      → read (take size b) ≡ some x
      → read_chunks read size rounds (drop size b) ≡ some xs
      → read_chunks read size (suc rounds) b ≡ some (x ∷ xs)
  unfolding read_chunks
  read_chunks-step read size rounds b x xs e f = ground arith

  -- The entries written one after the other.
  abbrev pub write_chunks : (A → Bytes) → List A → Bytes
  write_chunks write xs = flatten (map write xs)

  -- `read` reads back what `write` writes of the entry, in `size` bytes.
  abbrev pub ReadsBack : (A → Bytes) → (Bytes → Option A) → ℕ → A → Type ℓ
  ReadsBack write read size x = (length (write x) ≡ size) × (read (write x) ≡ some x)

  module _ (write : A → Bytes) (read : Bytes → Option A) (size : ℕ) where
    pub length-write_chunks :
        (xs : List A)
        → All (λ x. length (write x) ≡ size) xs
        → length (write_chunks write xs) ≡ length xs * size
    length-write_chunks [] h = omega arith
    length-write_chunks (x ∷ xs) h =
        length-append (write x) (write_chunks write xs)
        ∙ grind (arith, length-write_chunks xs h.1, h.0)

    pub read_chunks-write :
        (xs : List A) (rest : Bytes)
        → All (ReadsBack write read size) xs
        → read_chunks read size (length xs) (write_chunks write xs ++ rest) ≡ some xs
    unfolding read_chunks
    read_chunks-write [] rest h = refl
    read_chunks-write (x ∷ xs) rest h =
        let ((fits, back), others) = h in
        let whole : (write x ++ write_chunks write xs) ++ rest
            ≡ write x ++ (write_chunks write xs ++ rest) =
          append_assoc (write x) (write_chunks write xs) rest in
        let front : take size ((write x ++ write_chunks write xs) ++ rest) ≡ write x =
          ap (take size) whole
          ∙ ap (λ n. take n (write x ++ (write_chunks write xs ++ rest))) (sym fits)
          ∙ take-append_length (write x) (write_chunks write xs ++ rest) in
        let behind : drop size ((write x ++ write_chunks write xs) ++ rest)
            ≡ write_chunks write xs ++ rest =
          ap (drop size) whole
          ∙ ap (λ n. drop n (write x ++ (write_chunks write xs ++ rest))) (sym fits)
          ∙ drop-append_length (write x) (write_chunks write xs ++ rest) in
        read_chunks-step read size (length xs) ((write x ++ write_chunks write xs) ++ rest) x xs
          (ap read front ∙ back)
          (ap (read_chunks read size (length xs)) behind ∙ read_chunks-write xs rest others)
