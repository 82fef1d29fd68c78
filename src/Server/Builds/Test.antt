-- ===== src/Server/Builds/Test.antt =====
-- handleBuildTest (service/internal/server/handlers_builds.go): a build's test script in the
-- interpreter. What the interpreter writes comes as the chunks that each phase collects before its
-- timers end it.
use aifstudio.Prelude.{
  String, Bool, false, not, ◌&&◌, ◌||◌, List, [], ◌∷◌, ◌++◌, Option, ◌==◌, str_eq, any, is_some,
  if◌then◌else◌,
}
use aifstudio.Text.{Text, text, text_eq, contains, to_lower, split, trim_right, newline}
use aifstudio.Auth.Tables.{User}
use aifstudio.Store.Rows.{Build, Db}
use aifstudio.Store.Blobs.{download_blob}
use aifstudio.Build.Job.{status_succeeded}
use aifstudio.Server.Transcript.{compression_enabled, compress_transcript}
use aifstudio.Server.Http.{Reply, refused, replied, Check, stop, pass, reply_to, and_then, Answers}
use aifstudio.Server.Cascade.{BlobWorld, Storage}
use aifstudio.Server.Builds.{open_build}

pub data Event : Type 0 where
  output : Text → Event
  result : Bool → Text → Event

-- isWinningOutcome
abbrev pub loss_patterns : List Text
loss_patterns =
    text "you have died"
    ∷ text "you are dead"
    ∷ text "you died"
    ∷ text "you have lost"
    ∷ text "you lose"
    ∷ text "game over"
    ∷ []

unfoldable pub is_winning_outcome : Text → Bool
is_winning_outcome transcript =
    let lower = to_lower transcript in
    contains lower (text "***") && not (any (λ p. contains lower p) loss_patterns)

-- streamChunk: an event for each line of the chunk that is not empty without its carriage returns.
unfoldable pub line_events : List Text → List Event
line_events [] = []
line_events (l ∷ ls) =
    let line = trim_right (λ c. c == 13) l in
    let rest = line_events ls in if text_eq line [] then rest else output line ∷ rest

unfoldable pub chunk_events : Text → List Event
chunk_events chunk = line_events (split newline chunk)

unfoldable pub stream : List Text → List Event
stream [] = []
stream (c ∷ cs) = chunk_events c ++ stream cs

unfoldable pub concat : List Text → Text
concat [] = []
concat (c ∷ cs) = c ++ concat cs

-- What happens to the interpreter: the text of the error that keeps it from starting, or the chunks up
-- to its first prompt; then either it has exited by itself or there are the chunks after "test me", and
-- those still in the channel after the kill.
pub data Course : Type 0 where
  not_started : Text → Course
  exited : List Text → Course
  tested : List Text → List Text → List Text → Course

unfoldable pub events_of : Course → List Event
events_of (not_started message) = result false message ∷ []
events_of (exited startup) =
    let full = concat startup in stream startup ++ (result (is_winning_outcome full) full ∷ [])
events_of (tested startup script drained) =
    let full = concat startup ++ (concat script ++ concat drained) in
    stream startup
    ++ (stream script
        ++ (stream drained
            ++ (result (is_winning_outcome full) (compress_transcript compression_enabled full)
                ∷ [])))

pub record TestWorld : Type 0 where
  pub made_directory : Bool
  pub made_file : Bool
  pub reads : Bool
  pub flushes : Bool
  pub course : Course

-- handleBuildTest
unfoldable pub open_test : Answers → Bool → Option User → String → Db → Check Build
open_test a has_store user bid db = and_then (open_build a has_store user bid db) (λ b.
    if not (str_eq b.status status_succeeded) || text_eq b.artifact_path []
    then stop 409 "build_not_ready"
    else pass b)

unfoldable pub handle_build_test :
    Answers → BlobWorld → TestWorld → Bool → Option User → String → Storage → Reply (List Event)
handle_build_test a w t has_store user bid s = reply_to (open_test a has_store user bid s.db) (λ b.
    if not t.made_directory
    then refused 500 "internal"
    else if not t.made_file
    then refused 500 "internal"
    else if not (is_some (download_blob w.root t.reads b.artifact_path s.files))
    then refused 500 "internal"
    else if not t.flushes
    then replied 200 []
    else replied 200 (events_of t.course))
