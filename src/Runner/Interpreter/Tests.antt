-- ===== src/Runner/Interpreter/Tests.antt =====
-- Choices of an interpreter (service/internal/runner/interpreter.go, session.go).
use aifstudio.Prelude.{◌≡◌, refl, none, some}
use aifstudio.Text.{text, text_eq, has_suffix, to_lower, lower_char, elem}
use aifstudio.Runner.Interpreter.{
  has_any_suffix, dfrotz_cmd, select_interpreter, is_blorb, playable, unknown_extension,
  finalize_artifact,
}

zork :
    select_interpreter (text "/tmp/Zork.Z5")
    ≡ some (text "dfrotz", dfrotz_cmd (text "/tmp/Zork.Z5"))
unfolding select_interpreter has_any_suffix has_suffix text_eq to_lower lower_char
zork = refl

-- A blorb file under a foreign extension is playable as it is.
blorb_bin :
    finalize_artifact
      (text "/w/a.bin")
      (text ".bin")
      (text "/w")
      (some (text "FORM....IFRS...."))
      none
    ≡ playable (text "/w/a.bin")
unfolding finalize_artifact is_blorb text_eq to_lower lower_char elem
blorb_bin = refl

text_file :
    finalize_artifact (text "/w/a.txt") (text ".txt") (text "/w") (some (text "hello")) none
    ≡ unknown_extension
unfolding finalize_artifact is_blorb text_eq to_lower lower_char elem
text_file = refl
