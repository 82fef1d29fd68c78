-- ===== src/Runner/Interpreter.antt =====
-- service/internal/runner/interpreter.go: the interpreter of a story file; and finalizeArtifact of
-- service/internal/runner/session.go, which decides what a downloaded file is.
pub mod Choice
mod Tests
use aifstudio.Prelude.{
  ℕ, Bool, true, false, ◌&&◌, ◌||◌, List, [], ◌∷◌, Option, none, some, if◌then◌else◌, any, leb,
  length, take, drop,
}
use aifstudio.Text.{Text, text, text_eq, has_suffix, to_lower, elem}
use aifstudio.Runner.Archive.{Entry, Outcome, extract_zip}

-- An `exec.Cmd`: the program and its arguments.
pub record Cmd : Type 0 where
  pub program : Text
  pub args : List Text

-- hasSuffix of interpreter.go
pub has_any_suffix : Text → List Text → Bool
has_any_suffix s suffixes = any (has_suffix s) suffixes

abbrev pub dfrotz_exts : List Text
dfrotz_exts =
    text ".z3"
    ∷ text ".z4"
    ∷ text ".z5"
    ∷ text ".z6"
    ∷ text ".z7"
    ∷ text ".z8"
    ∷ text ".zblorb"
    ∷ []

abbrev pub glulxe_exts : List Text
glulxe_exts = text ".ulx" ∷ text ".gblorb" ∷ []

abbrev pub frob_exts : List Text
frob_exts = text ".gam" ∷ text ".t3" ∷ []

dfrotz_cmd : Text → Cmd
dfrotz_cmd story = record {
  program = text "dfrotz";
  args = text "-p" ∷ text "-q" ∷ text "-m" ∷ text "-w" ∷ text "255" ∷ story ∷ [];
}

glulxe_cmd : Text → Cmd
glulxe_cmd story = record { program = text "glulxe"; args = story ∷ [] }

frob_cmd : Text → Cmd
frob_cmd story = record {
  program = text "frob";
  args = text "-i" ∷ text "plain" ∷ text "-p" ∷ story ∷ [];
}

-- SelectInterpreter: the name and the command, or an error.
pub select_interpreter : Text → Option (Text × Cmd)
select_interpreter story =
    let lower = to_lower story in
    if has_any_suffix lower dfrotz_exts
    then some (text "dfrotz", dfrotz_cmd story)
    else if has_any_suffix lower glulxe_exts
    then some (text "glulxe", glulxe_cmd story)
    else if has_any_suffix lower frob_exts
    then some (text "frob", frob_cmd story)
    else none

-- interpreterCommandByName
pub interpreter_command_by_name : Text → Text → Option Cmd
interpreter_command_by_name name story =
    if text_eq name (text "dfrotz")
    then some (dfrotz_cmd story)
    else if text_eq name (text "glulxe")
    then some (glulxe_cmd story)
    else if text_eq name (text "frob")
    then some (frob_cmd story)
    else none

-- IsBlorb on the bytes of the file, `none` for one that does not open. The first read of a regular
-- file gives its first twelve bytes, or all of a shorter one.
pub is_blorb : Option (List ℕ) → Bool
is_blorb none = false
is_blorb (some bytes) =
    leb 12 (length bytes)
    && text_eq (take 4 bytes) (text "FORM")
    && text_eq (take 4 (drop 8 bytes)) (text "IFRS")

abbrev pub if_binaries : List Text
if_binaries =
    text ".z3"
    ∷ text ".z4"
    ∷ text ".z5"
    ∷ text ".z6"
    ∷ text ".z7"
    ∷ text ".z8"
    ∷ text ".ulx"
    ∷ text ".gam"
    ∷ text ".t3"
    ∷ []

-- What a downloaded file turns out to be.
pub data Artifact : Type 0 where
  playable : Text → Artifact
  archive : Outcome → Artifact
  unknown_extension : Artifact

-- finalizeArtifact; `bytes` is the content of the file at `local_path`, and `zip` its entries.
pub finalize_artifact : Text → Text → Text → Option (List ℕ) → Option (List Entry) → Artifact
finalize_artifact local_path e work_dir bytes zip =
    let lower = to_lower e in
    if text_eq lower (text ".zblorb") || text_eq lower (text ".gblorb") || is_blorb bytes
    then playable local_path
    else if elem lower if_binaries
    then playable local_path
    else if text_eq lower (text ".zip")
    then archive (extract_zip zip work_dir)
    else unknown_extension
