-- ===== src/Clamd/Tests.antt =====
-- The frames of a file of two chunks, and two replies.
use basket_shared.Prelude.{◌≡◌, refl, arith, false, some, [], ◌∷◌, ◌++◌, text}
use basket_shared.Clamd.{frames, parse_reply, is_space}
use basket_shared.Clamd.Framing.{unframe, unframe-frames}
use basket_shared.Clamd.Reply.{found_reply, parse_reply-nul}

unframe-frames_example : unframe 3 (frames ((1 ∷ 2 ∷ []) ∷ (3 ∷ []) ∷ [])) ≡ some (1 ∷ 2 ∷ 3 ∷ [])
unframe-frames_example =
    unframe-frames ((1 ∷ 2 ∷ []) ∷ (3 ∷ []) ∷ []) 3
      ((omega arith, omega arith), ((omega arith, omega arith), tt)) (omega arith)

solid : is_space b'E' ≡ false
unfolding is_space
solid = refl

parse_reply-nul_example :
    parse_reply (found_reply (text "Eicar") (0 ∷ []))
    ≡ some (record {
      clean = false;
      signature = some (text "Eicar" ++ b' ' ∷ (text "FOUND" ++ 0 ∷ []));
    })
parse_reply-nul_example = parse_reply-nul (text "Eicar") solid
