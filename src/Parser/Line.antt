-- ===== src/Parser/Line.antt =====
-- The line that `read_command_line` takes from the input.
use file_system_project.Prelude.{◌≡◌, refl, Bool, true, [], ◌∷◌, ◌++◌, arith, ◌==◌, not, ◌&&◌}
use file_system_project.Text.{Text}
use file_system_project.Parser.{read_command_line}

abbrev pub has_no_newline : Text → Bool
has_no_newline [] = true
has_no_newline (c ∷ cs) = not (c == 10) && has_no_newline cs

-- Where a text with no newline in it is followed by a newline, `read_command_line` gives that text
-- and leaves what follows the newline; where nothing follows it, all of it is the line.
pub read_command_line_lem :
    (line rest : Text)
    → has_no_newline line ≡ true
    → (read_command_line (line ++ (10 ∷ rest)) ≡ (line, rest))
      × (read_command_line line ≡ (line, []))
unfolding read_command_line
read_command_line_lem [] rest h = (refl, refl)
read_command_line_lem (c ∷ cs) rest h = ground (arith, read_command_line_lem cs rest)
