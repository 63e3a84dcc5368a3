-- ===== src/Json/Session.antt =====
-- include/monitor/output/snapshot_session.hpp and src/snapshot_session.cpp: the lines of a session.
use mtop.Base.{
  inr, inl, Bool-cases, ℕ, ◌-◌, Bool, false, ◌==◌, leb, if◌then◌else◌, ◌≡◌, arith, [], ◌∷◌, ◌++◌,
  append_assoc, Bytes, str, decimal,
}
use mtop.Base.Double.{Double}
use mtop.Json.Contents.{snapshot_json}
use mtop.Json.Parts.{object}
use mtop.Json.Document.{end, Json, Fields, text, atom, obj, render}
use mtop.Json.Refinement.{snapshot_to_json-render}
use mtop.Json.Snapshot.{SnapshotJsonOptions, snapshot_to_json}
use mtop.Json.Writer.{json_escape, escape_byte}
use mtop.Snapshot.{SystemSnapshot}

pub record SnapshotSessionInfo : Type 0 where
  pub session_id : Bytes
  pub label : Bytes
  pub started_unix_ms : ℕ

unfoldable pub make_session_id : ℕ → Bytes
make_session_id started_unix_ms = str "mtop-" ++ decimal started_unix_ms

unfoldable pub session_start_json : SnapshotSessionInfo → Bytes
session_start_json session =
    str "{\"event\":\"session_start\",\"schema_version\":2,\"session_id\":\""
    ++ json_escape session.session_id
    ++ str "\",\"label\":\""
    ++ json_escape session.label
    ++ str "\",\"started_unix_ms\":"
    ++ decimal session.started_unix_ms
    ++ str "}"

-- `snapshot_json.front() != '{'`
abbrev opens_object : Bytes → Bool
opens_object [] = false
opens_object (c ∷ _) = c == b'{'

unfoldable pub session_snapshot_json : Bytes → Bytes
session_snapshot_json snapshot =
    if opens_object snapshot
    then str "{\"event\":\"snapshot\",\"schema_version\":2,\"snapshot\":" ++ snapshot ++ str "}"
    else str "{\"event\":\"snapshot\",\"schema_version\":2,\"snapshot\":null}"

abbrev pub session_duration : SnapshotSessionInfo → ℕ → ℕ
session_duration session ended_unix_ms =
    if leb session.started_unix_ms ended_unix_ms then ended_unix_ms - session.started_unix_ms else 0

unfoldable pub session_end_json : SnapshotSessionInfo → ℕ → Bytes
session_end_json session ended_unix_ms =
    str "{\"event\":\"session_end\",\"schema_version\":2,\"session_id\":\""
    ++ json_escape session.session_id
    ++ str "\",\"ended_unix_ms\":"
    ++ decimal ended_unix_ms
    ++ str ",\"duration_ms\":"
    ++ decimal (session_duration session ended_unix_ms)
    ++ str "}"

-- The three lines, as documents.
abbrev pub start_document : SnapshotSessionInfo → Json
start_document session = object (
    (str "event", text (str "session_start"))
    ∷ (str "schema_version", atom (str "2"))
    ∷ (str "session_id", text session.session_id)
    ∷ (str "label", text session.label)
    ∷ (str "started_unix_ms", atom (decimal session.started_unix_ms))
    ∷ [])

abbrev pub snapshot_document : Json → Json
snapshot_document snapshot = object (
    (str "event", text (str "snapshot"))
    ∷ (str "schema_version", atom (str "2"))
    ∷ (str "snapshot", snapshot)
    ∷ [])

abbrev pub end_document : SnapshotSessionInfo → ℕ → Json
end_document session ended_unix_ms = object (
    (str "event", text (str "session_end"))
    ∷ (str "schema_version", atom (str "2"))
    ∷ (str "session_id", text session.session_id)
    ∷ (str "ended_unix_ms", atom (decimal ended_unix_ms))
    ∷ (str "duration_ms", atom (decimal (ended_unix_ms - session.started_unix_ms)))
    ∷ [])

session_start_json-render :
    (session : SnapshotSessionInfo) → session_start_json session ≡ render (start_document session)
unfolding session_start_json render json_escape str escape_byte
session_start_json-render session = simp append_assoc

session_duration_lem :
    (session : SnapshotSessionInfo) (ended_unix_ms : ℕ)
    → session_duration session ended_unix_ms ≡ ended_unix_ms - session.started_unix_ms
session_duration_lem session ended_unix_ms = ground arith

session_end_json-render :
    (session : SnapshotSessionInfo) (ended_unix_ms : ℕ)
    → session_end_json session ended_unix_ms ≡ render (end_document session ended_unix_ms)
unfolding session_end_json render json_escape str escape_byte
session_end_json-render session ended_unix_ms =
    rw (session_duration_lem session ended_unix_ms) (simp append_assoc)

session_snapshot_json-obj :
    (fs : Fields) → session_snapshot_json (render (obj fs)) ≡ render (snapshot_document (obj fs))
unfolding session_snapshot_json render json_escape str escape_byte
session_snapshot_json-obj fs = simp append_assoc

abbrev fields_of : Json → Fields
fields_of (obj fs) = fs
fields_of _ = end

module _ {F : Type 0} ⦃d : Double F⦄ where
  snapshot_json-obj :
      (s : SystemSnapshot F) (options : SnapshotJsonOptions F)
      → snapshot_json s options ≡ obj (fields_of (snapshot_json s options))
  unfolding snapshot_json
  snapshot_json-obj s options = elim (Bool-cases options.include_v2_models) [
    | inl e ↦ rw e
    | inr e ↦ rw e
  ]

  -- The three kinds of lines of a session are the texts of their documents: ids and labels are
  -- escaped whatever bytes they hold, a snapshot is embedded as it is and never replaced by null, and
  -- the duration is the difference of the times, or 0 if the clock went backwards.
  pub session_lines :
      (session : SnapshotSessionInfo) (ended_unix_ms : ℕ) (s : SystemSnapshot F)
      (options : SnapshotJsonOptions F)
      → (session_start_json session ≡ render (start_document session))
        × (session_snapshot_json (snapshot_to_json s options)
            ≡ render (snapshot_document (snapshot_json s options)))
        × (session_end_json session ended_unix_ms ≡ render (end_document session ended_unix_ms))
  session_lines session ended_unix_ms s options =
      let e = snapshot_json-obj s options in
      (
        session_start_json-render session,
        rw (snapshot_to_json-render s options, e) (session_snapshot_json-obj _),
        session_end_json-render session ended_unix_ms,
      )
