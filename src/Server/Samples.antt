-- ===== src/Server/Samples.antt =====
-- The surroundings of a server with a small database (service/internal/server).
use aifstudio.Prelude.{true, List, [], ◌∷◌, ◌++◌, none, some}
use aifstudio.Text.{Text, text, newline}
use aifstudio.Store.Samples.{small}
use aifstudio.Openai.Stream.{Chunk, delta_chunk}
use aifstudio.Build.Slots.{Manager}
use aifstudio.Server.Http.Owned.{all_answer}
use aifstudio.Server.Cascade.{Storage, BlobWorld}
use aifstudio.Server.Builds.{BuildState}
use aifstudio.Server.Runs.{RunState}
use aifstudio.Server.Runs.Live.{Live}
use aifstudio.Server.Assistant.{AiConfig, AiWorld}
use aifstudio.Server.Owner.{Call}

abbrev pub disk : BlobWorld
disk = record { root = text "/data"; removes = λ _. true }

abbrev pub storage : Storage
storage = record { db = small; files = (text "/data/sessions/s/current.qzl", 1 ∷ []) ∷ [] }

abbrev pub idle : Manager
idle = record { active_builds = []; owners = [] }

abbrev pub before_build : BuildState
before_build = record { db = small; builder = some idle; jobs = [] }

abbrev pub with_runner : RunState
with_runner = record { storage = storage; sessions = some []; stopped = [] }

abbrev pub live : Live
live = record { is_alive = λ _. true; last_output = λ _. text ">" }

abbrev pub config : AiConfig
config = record {
  max_description = 2000;
  max_message = 4000;
  max_turns = 50;
  model = "m";
  has_key = true;
  allowed = true;
}

abbrev pub content : Text
content =
    text "Hi"
    ++ (newline ∷ (text "```i7" ++ (newline ∷ (text "A room." ++ (newline ∷ text "```")))))

abbrev pub reply : List Chunk
reply = delta_chunk content content ∷ []

abbrev pub model : AiWorld
model = record {
  chunks = some reply;
  error_text = [];
  requested = 60;
  finished = 70;
  turn_id = "t-1";
  flushes = true;
}

abbrev pub call : Call
call = record {
  answers = all_answer;
  has_store = true;
  blobs = disk;
  patch = none;
  body = some (text "The Hall is a room.");
  publish = some true;
  now = 50;
  new_id = "b-2";
  config = config;
  model = model;
  block = λ _. none;
}
