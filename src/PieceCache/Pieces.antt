-- ===== src/PieceCache/Pieces.antt =====
-- Piece ids and weights: `_piece_bytes` and `_piece_class` of src/nunspark/piece_cache.py. An id is the
-- list of its code points.
use Prim.Native.Char.{code}
use Prim.Native.String.{String}
use nunspark.Base.{
  ℕ, ◌+◌, ◌-◌, Bool, true, false, ◌&&◌, ◌||◌, List, [], ◌∷◌, length, drop, list_eq, ◌==◌,
  if◌then◌else◌,
}

abbrev pub Pid : Type 0
Pid = List ℕ

-- The arrays of a piece: a name, and its `nbytes`.
abbrev pub Weights : Type 0
Weights = List (List ℕ × ℕ)

unfoldable pub piece_bytes : Weights → ℕ
piece_bytes [] = 0
piece_bytes ((name, nbytes) ∷ ws) = nbytes + piece_bytes ws

pub data PieceClass : Type 0 where
  dense core expert : PieceClass

abbrev pub codes : String → List ℕ
codes String.[] = []
codes (String.◌∷◌ c s) = code c ∷ codes s

-- `s.startswith(needle)`.
unfoldable pub starts_with : List ℕ → List ℕ → Bool
starts_with [] s = true
starts_with (c ∷ cs) [] = false
starts_with (c ∷ cs) (d ∷ ds) = c == d && starts_with cs ds

-- `needle in s`.
unfoldable pub is_infix : List ℕ → List ℕ → Bool
is_infix needle [] = starts_with needle []
is_infix needle (c ∷ cs) = starts_with needle (c ∷ cs) || is_infix needle cs

-- `s.endswith(tail)`.
unfoldable pub ends_with : List ℕ → List ℕ → Bool
ends_with tail s = list_eq (drop (length s - length tail) s) tail

unfoldable pub piece_class : Pid → PieceClass
piece_class pid =
    if is_infix (codes "_expert_") pid
    then expert
    else if ends_with (codes "_core") pid
    then core
    else dense

-- `_piece_class(pid) == "expert"`.
unfoldable pub is_expert : Pid → Bool
is_expert pid = elim (piece_class pid) [ expert ↦ true | _ ↦ false ]
