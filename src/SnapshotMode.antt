-- ===== src/SnapshotMode.antt =====
-- src/main.cpp: the snapshots that are written without a screen. What the sampler gives, the clock and the
-- flag that a signal sets are parameters, by how often they have been asked.
pub mod Emitting
pub mod Lines
use mtop.Base.{
  ℕ, zero, suc, ◌+◌, ◌*◌, ltb, leb, Bool, true, false, not, ◌&&◌, ◌||◌, if◌then◌else◌, List, [],
  ◌∷◌, ◌++◌, Option, none, some, is_nil, Bytes, str, beq,
}
use mtop.Base.Double.{Double}
use mtop.Base.Int.{ℤ, pos, pos_part, clamp_ℤ, max_ℤ}
use mtop.CommandLine.{RuntimeOptions, or_else}
use mtop.Config.{AppConfig}
use mtop.Json.Session.{
  SnapshotSessionInfo, make_session_id, session_start_json, session_snapshot_json, session_end_json,
}
use mtop.Json.Snapshot.{snapshot_to_json}
use mtop.Memory.{derive_memory_risk}
use mtop.Snapshot.{SystemSnapshot}
use mtop.Workload.Build.{build_workloads}

pub record World (F : Type 0) : Type 0 where
  pub sample : ℕ → SystemSnapshot F
  pub sampled_ms : ℕ → ℕ
  pub started_ms : ℕ
  pub ended_ms : ℕ
  -- g_snapshot_interrupted, when it is read
  pub interrupted : ℕ → Bool
  -- whether the output file opens
  pub opens : Bytes → Bool

-- The lines of the loop, and how often it has read the flag.
pub record Emitted : Type 0 where
  pub lines : List Bytes
  pub reads : ℕ

pub data Result : Type 0 where
  refused : ℕ → Bytes → Result
  finished : ℕ → List Bytes → Result

abbrev is_some : {A : Type 0} → Option A → Bool
is_some none = false
is_some (some _) = true

unfoldable pub interval_ms : RuntimeOptions → AppConfig → ℤ
unfolding clamp_ℤ
interval_ms options config =
    clamp_ℤ (or_else options.snapshot_interval_ms config.snapshot_interval_ms) (pos 100) (pos 60000)

abbrev pub loop_forever : RuntimeOptions → Bool
loop_forever options = options.snapshot_loop && not (is_some options.count)

unfoldable pub line_count : Option ℤ → ℕ
line_count none = 1
line_count (some count) = pos_part (max_ℤ (pos 1) count)

module _ {F : Type 0} ⦃d : Double F⦄ (w : World F) (options : RuntimeOptions)
    (config : AppConfig) where
  unfoldable pub prepare_snapshot_metadata : SystemSnapshot F → ℕ → SystemSnapshot F
  unfolding interval_ms
  prepare_snapshot_metadata snapshot now = record snapshot {
    timestamp_unix_ms = now;
    sample_interval_ms = pos_part (max_ℤ (pos 0) (interval_ms options config));
  }

  -- the line for a sample
  unfoldable pub snapshot_line : ℕ → Bytes
  unfolding prepare_snapshot_metadata snapshot_to_json session_snapshot_json
  snapshot_line n =
      let snapshot = prepare_snapshot_metadata (w.sample n) (w.sampled_ms n) in
      let workloads = build_workloads snapshot in
      let json = snapshot_to_json snapshot (record {
        view_profile = config.view_profile;
        include_v2_models = true;
        workloads = workloads;
        memory_risk = derive_memory_risk snapshot [] workloads;
      }) in
      if options.session then session_snapshot_json json else json

  -- The `while`, from the line `emitted` on. A round reads the flag twice.
  unfoldable pub emit : ℕ → ℕ → Emitted
  unfolding snapshot_line line_count
  emit zero emitted = record { lines = []; reads = emitted + emitted }
  emit (suc rounds) emitted =
      let rest = emit rounds (suc emitted) in
      let line = snapshot_line emitted in
      let reads = emitted + emitted in
      if w.interrupted reads || not (loop_forever options || ltb emitted (line_count options.count))
      then record { lines = []; reads = reads + 1 }
      else if w.interrupted (reads + 1) || not options.snapshot_loop && not (is_some options.count)
      then record { lines = line ∷ []; reads = reads + 2 }
      else if not (loop_forever options) && leb (line_count options.count) (suc emitted)
      then record { lines = line ∷ []; reads = reads + 2 }
      else record { lines = line ∷ rest.lines; reads = rest.reads }

  session_info : SnapshotSessionInfo
  unfolding make_session_id
  session_info = record {
    session_id = make_session_id w.started_ms;
    label = options.session_label;
    started_unix_ms = w.started_ms;
  }

  -- the first line and the last line of a session around the others
  unfoldable pub in_session : List Bytes → List Bytes
  unfolding session_info session_start_json session_end_json
  in_session lines =
      if options.session
      then session_start_json session_info
        ∷ (lines ++ (session_end_json session_info w.ended_ms ∷ []))
      else lines

  -- `rounds` bounds the loop, which a user may let run for ever.
  unfoldable pub run_snapshot_mode : ℕ → Result
  unfolding emit in_session
  run_snapshot_mode rounds =
      let emitted = emit rounds 0 in
      if not (beq options.snapshot_format (str "json"))
      then refused 2 (str "unsupported snapshot format: " ++ (options.snapshot_format ++ str "\n"))
      else if not (is_nil options.output_path) && not (w.opens options.output_path)
      then refused 1 (str "failed to open output file: " ++ (options.output_path ++ str "\n"))
      else finished (if w.interrupted emitted.reads then 130 else 0) (in_session emitted.lines)
