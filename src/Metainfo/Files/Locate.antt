-- ===== src/Metainfo/Files/Locate.antt =====
-- Which file holds a byte of the torrent (metainfo/info.go).
use native.Mathlib.Decide.{dec_lt}
use go_bt.Prelude.{
  ℕ, ◌+◌, ◌-◌, ◌<◌, ◌≤◌, ◌≡◌, subst, ◌⊎◌, inl, inr, refl, ap, sym, ◌∙◌, Option, none, some, List,
  [], ◌∷◌, ◌++◌, ltb, if◌then◌else◌, arith,
}
use go_bt.Metainfo.Files.{File, Info, sum_lengths, total_length, locate, get_file_by_offset}

-- The bytes before the end of the files.
abbrev pub size : List File → ℕ
size [] = 0
size (f ∷ fs) = f.length + size fs

sum_lengths-size : (ret : ℕ) (fs : List File) → sum_lengths ret fs ≡ ret + size fs
unfolding sum_lengths
sum_lengths-size ret [] = omega arith
sum_lengths-size ret (f ∷ fs) = sum_lengths-size (ret + f.length) fs ∙ omega arith

-- `f` is the file that holds the byte `offset`, at the place `at` of the file. The end of the last
-- file counts as a place of it.
pub record Holds (fs : List File) (offset : ℕ) (f : File) (at : ℕ) : Type 0 where
  pub before : List File
  pub behind : List File
  pub splits : fs ≡ before ++ (f ∷ behind)
  pub place : size before + at ≡ offset
  pub within : (at < f.length) ⊎ ((at ≡ f.length) × (behind ≡ []))

pub record Found (fs : List File) (offset : ℕ) (r : Option (File × ℕ)) : Type 0 where
  pub file : File
  pub at : ℕ
  pub returns : r ≡ some (file, at)
  pub holds : Holds fs offset file at

locate-here :
    (f : File) (fs : List File) (offset : ℕ)
    → offset < f.length
    → locate f fs offset ≡ some (f, offset)
unfolding locate
locate-here f [] offset h = ground arith
locate-here f (g ∷ gs) offset h = ground arith

locate-last : (f : File) → locate f [] f.length ≡ some (f, f.length)
unfolding locate
locate-last f = ground arith

locate-next :
    (f g : File) (gs : List File) (offset : ℕ)
    → f.length ≤ offset
    → locate f (g ∷ gs) offset ≡ locate g gs (offset - f.length)
unfolding locate
locate-next f g gs offset h = ground arith

Found-here :
    (f : File) (fs : List File) (offset : ℕ) (r : Option (File × ℕ))
    → r ≡ some (f, offset)
    → (offset < f.length) ⊎ ((offset ≡ f.length) × (fs ≡ []))
    → Found (f ∷ fs) offset r
Found-here f fs offset r e w = record {
  file = f;
  at = offset;
  returns = e;
  holds = record { before = []; behind = fs; splits = refl; place = omega arith; within = w };
}

Found-next :
    (f : File) (fs : List File) (offset : ℕ) (r s : Option (File × ℕ))
    → f.length ≤ offset
    → r ≡ s
    → Found fs (offset - f.length) s
    → Found (f ∷ fs) offset r
Found-next f fs offset r s h e w = record {
  file = w.file;
  at = w.at;
  returns = e ∙ w.returns;
  holds = record {
    before = f ∷ w.holds.before;
    behind = w.holds.behind;
    splits = ap (λ xs. f ∷ xs) w.holds.splits;
    place = omega (arith, w.holds.place);
    within = w.holds.within;
  };
}

locate-Found :
    (f : File) (fs : List File) (offset : ℕ)
    → offset ≤ size (f ∷ fs)
    → Found (f ∷ fs) offset (locate f fs offset)
locate-Found f [] offset h = elim (dec_lt offset f.length) [
  | yes l ↦ Found-here f [] offset (locate f [] offset) (locate-here f [] offset l) (inl l)
  | no l ↦
      let e : offset ≡ f.length = omega arith in
      Found-here f [] offset (locate f [] offset)
        (ap (λ o. locate f [] o) e ∙ locate-last f ∙ ap (λ o. some (f, o)) (sym e)) (inr (e, refl))
]
locate-Found f (g ∷ gs) offset h = elim (dec_lt offset f.length) [
  | yes l ↦
      Found-here f (g ∷ gs) offset (locate f (g ∷ gs) offset) (locate-here f (g ∷ gs) offset l)
        (inl l)
  | no l ↦
      Found-next f (g ∷ gs) offset (locate f (g ∷ gs) offset) (locate g gs (offset - f.length))
        (omega arith) (locate-next f g gs offset (omega arith))
        (locate-Found g gs (offset - f.length) (omega arith))
]

get_file-locate :
    (info : Info) (f : File) (fs : List File) (offset : ℕ)
    → info.files ≡ f ∷ fs
    → get_file_by_offset info offset ≡ locate f fs offset
unfolding get_file_by_offset
get_file-locate info f fs offset e = ground arith

total-size :
    (info : Info) (f : File) (fs : List File)
    → info.files ≡ f ∷ fs
    → total_length info ≡ size (f ∷ fs)
unfolding total_length
total-size info f fs e = ground (arith, sum_lengths-size 0 (f ∷ fs))

-- In a torrent of several files, an offset up to the total length is found: in the file that holds
-- the byte, at its place in that file, or at the end of the last file.
pub get_file_by_offset-Found :
    (info : Info) (f : File) (fs : List File) (offset : ℕ)
    → info.files ≡ f ∷ fs
    → offset ≤ total_length info
    → Found (f ∷ fs) offset (get_file_by_offset info offset)
get_file_by_offset-Found info f fs offset e h =
    subst (Found (f ∷ fs) offset) (sym (get_file-locate info f fs offset e))
      (locate-Found f fs offset (omega (arith, total-size info f fs e)))

-- The last file of the list.
abbrev pub last_of : File → List File → File
last_of f [] = f
last_of f (g ∷ gs) = last_of g gs

-- What `GetFileByOffset` answers behind the end.
abbrev pub answer_beyond : File → ℕ → Option (File × ℕ)
answer_beyond last over = if ltb last.length over then none else some (last, over)

locate-beyond :
    (f : File) (fs : List File) (offset over : ℕ)
    → offset ≡ size (f ∷ fs) + over
    → 0 < over
    → locate f fs offset ≡ answer_beyond (last_of f fs) over
unfolding locate
locate-beyond f [] offset over e h = let r : offset - f.length ≡ over = omega arith in ground arith
locate-beyond f (g ∷ gs) offset over e h =
    locate-next f g gs offset (omega arith)
    ∙ locate-beyond g gs (offset - f.length) over (omega arith) h

-- In a torrent of several files, an offset that is `over` bytes behind the total length panics only
-- where `over` is larger than the last file; otherwise the answer is the last file, with `over` as
-- the place.
pub get_file_by_offset_beyond :
    (info : Info) (f : File) (fs : List File) (over : ℕ)
    → info.files ≡ f ∷ fs
    → 0 < over
    → get_file_by_offset info (total_length info + over) ≡ answer_beyond (last_of f fs) over
get_file_by_offset_beyond info f fs over e h =
    let total = total-size info f fs e in
    get_file-locate info f fs (total_length info + over) e
    ∙ locate-beyond f fs (total_length info + over) over (omega (arith, total)) h
