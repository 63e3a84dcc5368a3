-- ===== src/Examples/Documents.antt =====
-- The JSON theorems at concrete strings, documents and snapshots.
use mtop.Base.{ℕ, ◌≡◌, true, List, [], ◌∷◌, ◌++◌, some, str}
use mtop.Examples.Fixtures.{whole_double, machine}
use mtop.Json.Contents.{snapshot_json}
use mtop.Json.Document.{render}
use mtop.Json.Escape.{read_string, read_string-json_escape}
use mtop.Json.Refinement.{snapshot_to_json-render}
use mtop.Json.Session.{
  end_document, snapshot_document, start_document, SnapshotSessionInfo, session_start_json,
  session_snapshot_json, session_end_json, session_lines,
}
use mtop.Json.Snapshot.{SnapshotJsonOptions, snapshot_to_json}
use mtop.Json.Writer.{json_escape}
use mtop.Memory.{MemoryRiskLevel}
use mtop.View.{beta}

abbrev options : SnapshotJsonOptions ℕ
options = record {
  view_profile = beta;
  include_v2_models = true;
  workloads = [];
  memory_risk = record {
    level = MemoryRiskLevel.ok;
    reason = str "fine";
    estimated_headroom_bytes = 1;
    reclaimable_bytes = 2;
    compressed_bytes = 3;
    swap_used_bytes = 4;
    swap_rate_bytes_per_sec = 5;
  };
}

-- A text with a quote, a backslash, a line feed and a control byte.
abbrev awkward : List ℕ
awkward = b'a' ∷ b'"' ∷ b'\\' ∷ 10 ∷ 1 ∷ []

abbrev session : SnapshotSessionInfo
session = record { session_id = str "mtop-5"; label = awkward; started_unix_ms = 5 }

snapshot_to_json-render_example :
    snapshot_to_json machine options ≡ render (snapshot_json machine options)
snapshot_to_json-render_example = snapshot_to_json-render machine options

read_string-json_escape_example :
    read_string (json_escape awkward ++ (b'"' ∷ str ",")) ≡ some (awkward, str ",")
read_string-json_escape_example = read_string-json_escape awkward (str ",")

session_lines_example :
    (session_start_json session ≡ render (start_document session))
    × (session_snapshot_json (snapshot_to_json machine options)
        ≡ render (snapshot_document (snapshot_json machine options)))
    × (session_end_json session 3 ≡ render (end_document session 3))
session_lines_example = session_lines session 3 machine options
