-- ===== src/Config/RoundTrip.antt =====
-- src/config.cpp: the profile through the file system, from `persist_view_profile` to `load_config`.
use mtop.Base.{
  sym, ◌∙◌, ap, str, if_rule, ◌≡◌, refl, List, [], ◌∷◌, ◌++◌, All, Bytes, beq, beq_refl,
  if◌then◌else◌, ◌==◌, ℕ, arith, false, is_nil,
}
use mtop.View.{view_profile_name, ViewProfile, alpha, beta}
use mtop.Config.{default_config}
use mtop.Config.Files.{
  sets_view_profile, push_byte, load_lines, split_lines, join_lines, load_file, load_config,
  update_lines, desired_line, persist_view_profile, config_path, File, missing, unreadable,
  readable, Disk, Writing, written,
}
use mtop.Config.Persist.{with_profile, SetsAtMostOnce, load_lines-update_lines}

-- A line as std::getline returns it.
abbrev OneLine : Bytes → Type 0
OneLine = All (λ c. (c == b'\n') ≡ false)

push_byte-OneLine :
    (c : ℕ) (ls : List Bytes) → (c == b'\n') ≡ false → All OneLine ls → All OneLine (push_byte c ls)
push_byte-OneLine c [] e h = ((e, tt), tt)
push_byte-OneLine c (l ∷ ls) e h = ((e, h.0), h.1)

split_lines-OneLine : (s : Bytes) → All OneLine (split_lines s)
unfolding split_lines
split_lines-OneLine [] = tt
split_lines-OneLine (c ∷ s) =
    if_rule (All OneLine) (c == b'\n') (λ _. (tt, split_lines-OneLine s))
      (λ e. push_byte-OneLine c (split_lines s) e (split_lines-OneLine s))

split_lines-append :
    (l rest : Bytes) → OneLine l → split_lines (l ++ (b'\n' ∷ rest)) ≡ l ∷ split_lines rest
unfolding split_lines
split_lines-append [] rest h = refl
split_lines-append (c ∷ l) rest h = rw (h.0, split_lines-append l rest h.1)

-- Reading the lines that were written gives them back.
split_lines-join_lines : (ls : List Bytes) → All OneLine ls → split_lines (join_lines ls) ≡ ls
unfolding join_lines
split_lines-join_lines [] h = unfold split_lines in refl
split_lines-join_lines (l ∷ ls) h =
    rw (split_lines-append l (join_lines ls) h.0, split_lines-join_lines ls h.1)

desired_line-OneLine : (p : ViewProfile) → OneLine (desired_line p)
unfolding desired_line str view_profile_name
desired_line-OneLine alpha = ground arith
desired_line-OneLine beta = ground arith

update_lines-OneLine :
    (p : ViewProfile) (ls : List Bytes) → All OneLine ls → All OneLine (update_lines p ls)
unfolding update_lines
update_lines-OneLine p [] h = (desired_line-OneLine p, tt)
update_lines-OneLine p (l ∷ ls) h =
    if_rule (All OneLine) (sets_view_profile l) (λ _. (desired_line-OneLine p, h.1))
      (λ _. (h.0, update_lines-OneLine p ls h.1))

abbrev pub lines_of : File → List Bytes
lines_of (readable content) = split_lines content
lines_of _ = []

-- The disk after the file at a path was written.
abbrev pub store : Disk → Bytes → Bytes → Disk
store disk path content = record disk {
  file = λ q. if beq q path then readable content else disk.file q;
}

persist_view_profile-content :
    (disk : Disk) (w : Writing) (explicit_path : Bytes) (p : ViewProfile) {content : Bytes}
    → persist_view_profile disk w explicit_path p ≡ written content
    → (is_nil (config_path disk explicit_path) ≡ false)
      × (content
          ≡ join_lines (update_lines p (lines_of (disk.file (config_path disk explicit_path)))))
unfolding persist_view_profile
persist_view_profile-content disk w explicit_path p h = ground arith

lines_of-OneLine : (f : File) → All OneLine (lines_of f)
lines_of-OneLine missing = tt
lines_of-OneLine unreadable = tt
lines_of-OneLine (readable content) = split_lines-OneLine content

load_file-lines : (f : File) → load_file f ≡ load_lines (lines_of f) default_config
unfolding load_file load_lines
load_file-lines missing = refl
load_file-lines unreadable = refl
load_file-lines (readable content) = refl

-- Once a profile has been persisted, loading gives the settings as they were with that profile, if at
-- most one line of the old file sets the profile.
pub load_config-persist_view_profile :
    (disk : Disk) (w : Writing) (explicit_path : Bytes) (p : ViewProfile) {content : Bytes}
    → SetsAtMostOnce (lines_of (disk.file (config_path disk explicit_path)))
    → persist_view_profile disk w explicit_path p ≡ written content
    → load_config (store disk (config_path disk explicit_path) content) explicit_path
      ≡ with_profile (load_config disk explicit_path) p
unfolding load_config
load_config-persist_view_profile disk w explicit_path p {content} once h =
    let path = config_path disk explicit_path in
    let old = lines_of (disk.file path) in
    let (given, e) = persist_view_profile-content disk w explicit_path p h in
    rw (given, beq_refl path)
      (ap (λ s. load_lines (split_lines s) default_config) e
        ∙ ap (λ ls. load_lines ls default_config)
            (split_lines-join_lines (update_lines p old)
              (update_lines-OneLine p old (lines_of-OneLine (disk.file path))))
        ∙ load_lines-update_lines p old default_config once
        ∙ sym (ap (λ c. with_profile c p) (load_file-lines (disk.file path))))
