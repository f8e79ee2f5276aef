-- ===== src/Lexer/Examples.antt =====
-- The lexer at a condition with a comment.
use synthgen_core.Prelude.{text, some, List, ◌≡◌}
use synthgen_core.Common.Result.{Result}
use synthgen_core.Lexer.{Token, tokenize, init}
use synthgen_core.Lexer.Tokenize.{Outcome, tokenize-Lexes}

tokenize-Lexes_example :
    (r : Result (List Token)) × (tokenize (text "speed >= -1.5e3 -- fast") ≡ some r)
    × Outcome (text "speed >= -1.5e3 -- fast") init r
tokenize-Lexes_example = tokenize-Lexes (text "speed >= -1.5e3 -- fast")
