-- ===== src/Config/Persist.antt =====
-- src/config.cpp: what `persist_view_profile` writes is what `load_config` reads back.
use mathlib.Core.Option.{none-ne-some}
use mtop.Base.{
  ◌≢◌, append_assoc, some, tolower, lowercase, ◌≡◌, refl, sym, ap, ◌∙◌, ◌⊎◌, inl, inr, true, false,
  arith, List, [], ◌∷◌, ◌++◌, All, Bytes, str, beq, beq_iff, Option-cases, trim,
}
use mtop.View.{trim_lower, ViewProfile, alpha, beta, view_profile_name, parse_view_profile}
use mtop.Config.Files.{load_lines, sets_view_profile, desired_line, update_lines}
use mtop.Config.{AppConfig, value_or, apply_setting, parse_line, split_eq}

abbrev pub with_profile : AppConfig → ViewProfile → AppConfig
with_profile c p = record c { view_profile = p }

-- A setting other than the profile commutes with a change of the profile.
apply_setting-other :
    (key value : Bytes) (c : AppConfig) (p : ViewProfile)
    → beq key (str "view_profile") ≡ false
    → apply_setting key value (with_profile c p) ≡ with_profile (apply_setting key value c) p
unfolding apply_setting
apply_setting-other key value c p h = ground arith

-- The profile's own setting changes nothing else.
apply_setting-profile :
    (value : Bytes) (c : AppConfig)
    → apply_setting (str "view_profile") value c
      ≡ with_profile c (apply_setting (str "view_profile") value c).view_profile
unfolding apply_setting beq str
apply_setting-profile value c = ground arith

apply_setting-own :
    (key value : Bytes) (c : AppConfig)
    → beq key (str "view_profile") ≡ true
    → apply_setting key value c ≡ with_profile c (apply_setting key value c).view_profile
apply_setting-own key value c h =
    rw ((beq_iff key (str "view_profile")).0 h) (apply_setting-profile value c)

parse_line-other :
    (l : Bytes) (c : AppConfig) (p : ViewProfile)
    → sets_view_profile l ≡ false
    → parse_line (trim l) (with_profile c p) ≡ with_profile (parse_line (trim l) c) p
unfolding parse_line sets_view_profile
parse_line-other l c p h = elim (Option-cases (split_eq (trim l))) [
  | inl e ↦ ground arith
  | inr (kv, e) ↦ ground (arith, apply_setting-other (trim kv.0) (trim kv.1) c p)
]

parse_line-profile :
    (l : Bytes) (c : AppConfig)
    → sets_view_profile l ≡ true
    → parse_line (trim l) c ≡ with_profile c (parse_line (trim l) c).view_profile
unfolding parse_line sets_view_profile
parse_line-profile l c h = elim (Option-cases (split_eq (trim l))) [
  | inl e ↦ ground arith
  | inr (kv, e) ↦ ground (arith, apply_setting-own (trim kv.0) (trim kv.1) c)
]

parse_line-desired :
    (p : ViewProfile) (c : AppConfig) → parse_line (trim (desired_line p)) c ≡ with_profile c p
unfolding parse_line trim desired_line split_eq str view_profile_name apply_setting beq
    parse_view_profile trim_lower lowercase tolower value_or
parse_line-desired alpha c = refl
parse_line-desired beta c = refl

-- No line, or exactly one, sets the profile.
abbrev pub SetsNever : List Bytes → Type 0
SetsNever = All (λ l. sets_view_profile l ≡ false)

abbrev pub SetsAtMostOnce : List Bytes → Type 0
SetsAtMostOnce [] = Unit
SetsAtMostOnce (l ∷ ls) =
    ((sets_view_profile l ≡ true) × SetsNever ls)
    ⊎ ((sets_view_profile l ≡ false) × SetsAtMostOnce ls)

load_lines-other :
    (ls : List Bytes) (c : AppConfig) (p : ViewProfile)
    → SetsNever ls
    → load_lines ls (with_profile c p) ≡ with_profile (load_lines ls c) p
unfolding load_lines
load_lines-other [] c p h = refl
load_lines-other (l ∷ ls) c p h =
    rw (parse_line-other l c p h.0) (load_lines-other ls (parse_line (trim l) c) p h.1)

-- Where one line at most sets the profile, loading the updated lines gives the new profile and
-- leaves every other setting as it was.
pub load_lines-update_lines :
    (p : ViewProfile) (ls : List Bytes) (c : AppConfig)
    → SetsAtMostOnce ls
    → load_lines (update_lines p ls) c ≡ with_profile (load_lines ls c) p
unfolding load_lines update_lines
load_lines-update_lines p [] c h = parse_line-desired p c
load_lines-update_lines p (l ∷ ls) c (inl (e, never)) =
    let old = (parse_line (trim l) c).view_profile in
    let kept = ap (load_lines ls) (parse_line-profile l c e) ∙ load_lines-other ls c old never in
    rw e (
      ap (load_lines ls) (parse_line-desired p c)
      ∙ load_lines-other ls c p never
      ∙ sym (ap (λ x. with_profile x p) kept))
load_lines-update_lines p (l ∷ ls) c (inr (e, once)) =
    rw e (load_lines-update_lines p ls (parse_line (trim l) c) once)

load_lines-append :
    (ls ms : List Bytes) (c : AppConfig) → load_lines (ls ++ ms) c ≡ load_lines ms (load_lines ls c)
unfolding load_lines
load_lines-append [] ms c = refl
load_lines-append (l ∷ ls) ms c = load_lines-append ls ms (parse_line (trim l) c)

-- A line that sets the profile to a name that is known.
abbrev pub SetsTo : ViewProfile → Bytes → Type 0
SetsTo p l =
    (sets_view_profile l ≡ true)
    × ((key : Bytes) × (value : Bytes) × (split_eq (trim l) ≡ some (key, value))
        × (parse_view_profile (trim value) ≡ some p))

no_name : (p : ViewProfile) → parse_view_profile [] ≢ some p
unfolding parse_view_profile trim_lower trim lowercase str beq
no_name p e = none-ne-some p e

apply_setting-names :
    (p : ViewProfile) (value : Bytes) (c : AppConfig)
    → parse_view_profile value ≡ some p
    → (apply_setting (str "view_profile") value c).view_profile ≡ p
unfolding apply_setting beq str value_or
apply_setting-names p [] c v = absurd (no_name p v)
apply_setting-names p (b ∷ value) c v = rw (v) refl

apply_setting-own_name :
    (p : ViewProfile) (key value : Bytes) (c : AppConfig)
    → parse_view_profile value ≡ some p
    → beq key (str "view_profile") ≡ true
    → (apply_setting key value c).view_profile ≡ p
apply_setting-own_name p key value c v h =
    rw ((beq_iff key (str "view_profile")).0 h) (apply_setting-names p value c v)

parse_line-SetsTo :
    (p : ViewProfile) (l : Bytes) (c : AppConfig)
    → SetsTo p l
    → (parse_line (trim l) c).view_profile ≡ p
unfolding parse_line sets_view_profile
parse_line-SetsTo p l c (h, (key, value, e, v)) =
    ground (arith, h, e, apply_setting-own_name p (trim key) (trim value) c v)

update_lines-first :
    (p : ViewProfile) (before : List Bytes) (l : Bytes) (rest : List Bytes)
    → SetsNever before
    → sets_view_profile l ≡ true
    → update_lines p (before ++ (l ∷ rest)) ≡ before ++ (desired_line p ∷ rest)
unfolding update_lines
update_lines-first p [] l rest never e = rw (e) refl
update_lines-first p (b ∷ before) l rest never e =
    rw (never.0, update_lines-first p before l rest never.1 e) refl

load_lines-kept :
    (ls : List Bytes) (c : AppConfig)
    → SetsNever ls
    → (load_lines ls c).view_profile ≡ c.view_profile
load_lines-kept ls c never = ap (λ x. x.view_profile) (load_lines-other ls c c.view_profile never)

load_lines-SetsTo :
    (p : ViewProfile) (before : List Bytes) (l : Bytes) (after : List Bytes) (c : AppConfig)
    → SetsTo p l
    → SetsNever after
    → (load_lines (before ++ (l ∷ after)) c).view_profile ≡ p
unfolding load_lines
load_lines-SetsTo p before l after c h never =
    ap (λ x. x.view_profile) (load_lines-append before (l ∷ after) c)
    ∙ load_lines-kept after (parse_line (trim l) (load_lines before c)) never
    ∙ parse_line-SetsTo p l (load_lines before c) h

-- Where two lines or more set the profile, only the first of them is rewritten, and the last of them, if it
-- names a profile, still decides what is loaded: the profile that was persisted is lost.
pub load_lines-update_lines_shadowed :
    (p q : ViewProfile) (before : List Bytes) (l : Bytes) (between : List Bytes) (last : Bytes)
    (after : List Bytes) (c : AppConfig)
    → SetsNever before
    → sets_view_profile l ≡ true
    → SetsTo q last
    → SetsNever after
    → let updated = update_lines p (before ++ (l ∷ (between ++ (last ∷ after)))) in
      (updated ≡ before ++ (desired_line p ∷ (between ++ (last ∷ after))))
      × ((load_lines updated c).view_profile ≡ q)
load_lines-update_lines_shadowed p q before l between last after c b e s a =
    let kept = update_lines-first p before l (between ++ (last ∷ after)) b e in
    (
      kept,
      ap (λ ls. (load_lines ls c).view_profile)
            (kept ∙ sym (append_assoc before (desired_line p ∷ between) (last ∷ after)))
          ∙ load_lines-SetsTo q (before ++ (desired_line p ∷ between)) last after c s a,
    )
