-- ===== src/SnapshotMode/Lines.antt =====
-- src/main.cpp: how many snapshots are written, and which.
use mtop.Base.{
  ◌⊎◌, ◌++◌, max, min, map, Bool, Bool-cases, inl, inr, if◌then◌else◌, ℕ, zero, suc, ◌≤◌, true,
  false, ◌||◌, ◌≡◌, refl, ap, ◌∙◌, arith, List, [], ◌∷◌, Option, none, some, Bytes, str, beq,
  is_nil,
}
use mtop.Base.Double.{Double}
use mtop.Base.Int.{pos, pos_part, max_ℤ, clamp_ℤ, ℤ}
use mtop.CommandLine.{or_else, RuntimeOptions}
use mtop.Config.{AppConfig}
use mtop.Json.Session.{
  SnapshotSessionInfo, make_session_id, session_start_json, session_snapshot_json, session_end_json,
}
use mtop.Json.Snapshot.{snapshot_to_json}
use mtop.Memory.{derive_memory_risk}
use mtop.Snapshot.{SystemSnapshot}
use mtop.Workload.Build.{build_workloads}
use mtop.SnapshotMode.{
  interval_ms, prepare_snapshot_metadata, session_info, World, finished, loop_forever, line_count,
  snapshot_line, in_session, run_snapshot_mode,
}
use mtop.SnapshotMode.Emitting.{lines_from, run_snapshot_mode_lem}

-- The numbers from `first` on, `n` of them.
abbrev pub numbers : ℕ → ℕ → List ℕ
numbers first zero = []
numbers first (suc n) = first ∷ numbers (suc first) n

-- how many lines are asked for
abbrev pub asked : Option ℤ → ℕ
asked none = 1
asked (some count) = max 1 (pos_part count)

asked_lem : (count : Option ℤ) → line_count count ≡ asked count
unfolding line_count
asked_lem none = refl
asked_lem (some count) = ground arith

module _ {F : Type 0} ⦃d : Double F⦄ (w : World F) (options : RuntimeOptions)
    (config : AppConfig) where
  -- The sample `n`, with the time at which it was taken and the interval, held between 100 and 60000.
  abbrev stamped : ℕ → SystemSnapshot F
  stamped n = record (w.sample n) {
    timestamp_unix_ms = w.sampled_ms n;
    sample_interval_ms =
        max 100
          (min 60000 (pos_part (or_else options.snapshot_interval_ms config.snapshot_interval_ms)));
  }

  -- The document of the sample `n`, with the models that are derived from this sample alone.
  abbrev pub document : ℕ → Bytes
  document n = snapshot_to_json (stamped n) (record {
    view_profile = config.view_profile;
    include_v2_models = true;
    workloads = build_workloads (stamped n);
    memory_risk = derive_memory_risk (stamped n) [] (build_workloads (stamped n));
  })

  abbrev pub session : SnapshotSessionInfo
  session = record {
    session_id = make_session_id w.started_ms;
    label = options.session_label;
    started_unix_ms = w.started_ms;
  }

  -- What is written for some samples: their documents, or with a session its first line, its lines for the
  -- documents and its last line.
  abbrev pub written_for : Bool → List ℕ → List Bytes
  written_for false samples = map document samples
  written_for true samples =
      (session_start_json session ∷ [])
      ++ map (λ n. session_snapshot_json (document n)) samples
      ++ (session_end_json session w.ended_ms ∷ [])

  interval_lem :
      pos_part (max_ℤ (pos 0) (interval_ms options config))
      ≡ max 100
          (min 60000 (pos_part (or_else options.snapshot_interval_ms config.snapshot_interval_ms)))
  unfolding interval_ms clamp_ℤ
  interval_lem = ground arith

  stamped_lem :
      (n : ℕ) → prepare_snapshot_metadata w options config (w.sample n) (w.sampled_ms n) ≡ stamped n
  unfolding prepare_snapshot_metadata
  stamped_lem n =
      ap (λ ms. record (w.sample n) { timestamp_unix_ms = w.sampled_ms n; sample_interval_ms = ms })
        interval_lem

  snapshot_line_lem :
      (n : ℕ)
      → snapshot_line w options config n
        ≡ (if options.session then session_snapshot_json (document n) else document n)
  unfolding snapshot_line
  snapshot_line_lem n =
      ap
        (λ snapshot.
          let json = snapshot_to_json snapshot (record {
            view_profile = config.view_profile;
            include_v2_models = true;
            workloads = build_workloads snapshot;
            memory_risk = derive_memory_risk snapshot [] (build_workloads snapshot);
          }) in
          if options.session then session_snapshot_json json else json)
        (stamped_lem n)

  lines_from_lem :
      (first n : ℕ)
      → lines_from w options config first n
        ≡ map
            (λ k. if options.session then session_snapshot_json (document k) else document k)
            (numbers first n)
  unfolding lines_from
  lines_from_lem first zero = refl
  lines_from_lem first (suc n) = rw (snapshot_line_lem first, lines_from_lem (suc first) n) refl

  written_for_lem :
      (samples : List ℕ)
      → in_session w options config (
          map
            (λ k. if options.session then session_snapshot_json (document k) else document k)
            samples)
        ≡ written_for options.session samples
  unfolding in_session session_info
  written_for_lem samples = elim (Bool-cases options.session) [
    | inl e ↦ rw (e) refl
    | inr e ↦ rw (e) refl
  ]

  loop_ends :
      (options.snapshot_loop ≡ false) ⊎ ((count : ℤ) × (options.count ≡ some count))
      → loop_forever options ≡ false
  loop_ends (inl e) = rw (e) refl
  loop_ends (inr (count, e)) = rw (e) (ground arith)

  -- If no signal comes and no loop or a count is asked for, a run in the format json that can write its file
  -- writes the documents of the first samples, each of its own sample and in their order: as many as the
  -- count says, at least one, and one without a count. In a session each of them is a line of the session,
  -- and the line of the session's start stands before them, that of its end behind them. The program ends
  -- with 0.
  pub run_snapshot_mode-lines :
      ((n : ℕ) → w.interrupted n ≡ false)
      → (options.snapshot_loop ≡ false) ⊎ ((count : ℤ) × (options.count ≡ some count))
      → beq options.snapshot_format (str "json") ≡ true
      → (is_nil options.output_path || w.opens options.output_path) ≡ true
      → (rounds : ℕ) → asked options.count ≤ rounds
      → run_snapshot_mode w options config rounds
        ≡ finished 0 (written_for options.session (numbers 0 (asked options.count)))
  run_snapshot_mode-lines calm ends format path rounds h =
      run_snapshot_mode_lem w options config calm (loop_ends ends) format path rounds
        (omega (arith, h, asked_lem options.count))
      ∙ ap (λ n. finished 0 (in_session w options config (lines_from w options config 0 n)))
          (asked_lem options.count)
      ∙ ap (λ ls. finished 0 (in_session w options config ls))
          (lines_from_lem 0 (asked options.count))
      ∙ ap (finished 0) (written_for_lem (numbers 0 (asked options.count)))
