-- ===== src/Sdk/Paths.antt =====
-- The paths of the endpoints with their variables put in.
use Prim.Native.Char.{code}
use dp_topic_api.Prelude.{
  String, ◌≡◌, Bool, true, false, List, [], ◌∷◌, map, All, nat_eq, ◌==◌, if◌then◌else◌,
}
use dp_topic_api.Prelude.Text.{concat}

pub data Piece : Type 0 where
  text : String → Piece
  variable : String → Piece

abbrev text_piece : String → List Piece → List Piece
text_piece read rest = if read == "" then rest else text read ∷ rest

-- The pieces of a template; `read` is what was read of the piece, `inside` the braces or not.
abbrev pieces_from : Bool → String → String → List Piece
pieces_from false read String.[] = text_piece read []
pieces_from true read String.[] = []
pieces_from false read (String.◌∷◌ c s) =
    let inside = text_piece read (pieces_from true "" s) in
    let further = pieces_from false (concat read (String.◌∷◌ c String.[])) s in
    if nat_eq (code c) 123 then inside else further
pieces_from true read (String.◌∷◌ c s) =
    let outside = variable read ∷ pieces_from false "" s in
    let further = pieces_from true (concat read (String.◌∷◌ c String.[])) s in
    if nat_eq (code c) 125 then outside else further

abbrev value_of : String → List (String × String) → String
value_of name [] = ""
value_of name ((k, v) ∷ vars) = if k == name then v else value_of name vars

abbrev piece_value : List (String × String) → Piece → String
piece_value vars (text s) = s
piece_value vars (variable name) = value_of name vars

abbrev fill : List (String × String) → List Piece → String
fill vars [] = ""
fill vars (p ∷ []) = piece_value vars p
fill vars (p ∷ q ∷ ps) = concat (piece_value vars p) (fill vars (q ∷ ps))

-- The path of a template such as "/topics/{id}".
abbrev pub expand : String → List (String × String) → String
expand path vars = fill vars (pieces_from false "" path)

abbrev piece_names : List Piece → List String
piece_names [] = []
piece_names (text s ∷ ps) = piece_names ps
piece_names (variable name ∷ ps) = name ∷ piece_names ps

-- The names of the variables of a template, in their order.
abbrev pub names : String → List String
names path = piece_names (pieces_from false "" path)

-- Values for the variables of a template, in their order.
abbrev pub Fits : (String → Bool) → String → List (String × String) → Type 0
Fits segment path vars =
    (map (λ (v : String × String). v.0) vars ≡ names path)
    × All (λ (v : String × String). segment v.1 ≡ true) vars
