-- ===== src/Workload/Conservation.antt =====
-- src/workload_model.cpp: build_workloads puts every detected process into one workload.
use mathlib.Core.List.{append-nil, append_assoc, Perm, perm_middle}
use mathlib.Core.List.Perm
use mtop.Base.{
  subst, string_less, beq, Bytes, ◌≡◌, refl, Bool, List, [], ◌∷◌, ◌++◌, map, Bool-cases, inl, inr,
}
use mtop.Base.OrderedMap.{upsert}
use mtop.Base.Double.{Double}
use mtop.Base.Int.{ℤ}
use mtop.Workload.Grouping.{
  DetectedProcess, detect_all, index_by_pid, grouping_key, better_representative,
}
use mtop.Workload.Build.{
  Group, ref_of, new_group, describe, accumulate, represent, add_item, group_items, ref_less,
  workload_less, finish, build_workloads,
}
use mtop.Workload.{WorkloadProcessRef}
use mtop.Snapshot.{SystemSnapshot}
use mtop.Base.Sort.{sort_by, insert_by, sort_by-perm}

-- The lists `f` of all elements, one after the other.
abbrev pub collect : {A B : Type 0} → (A → List B) → List A → List B
collect f [] = []
collect f (x ∷ xs) = f x ++ collect f xs

module _ {A B : Type 0} where
  insert_by-collect :
      (lt : A → A → Bool) (f : A → List B) (x : A) (xs : List A)
      → Perm (collect f (insert_by lt x xs)) (f x ++ collect f xs)
  unfolding insert_by
  insert_by-collect lt f x [] = Perm.refl _
  insert_by-collect lt f x (y ∷ ys) = elim (Bool-cases (lt y x)) [
    | inl below ↦ rw below (
        Perm.trans (Perm.append_left (f y) (insert_by-collect lt f x ys))
          (rotate (f y) (f x) (collect f ys)))
    | inr above ↦ rw above (Perm.refl _)
  ]
    where
      rotate : (k l r : List B) → Perm (k ++ (l ++ r)) (l ++ (k ++ r))
      rotate k [] r = Perm.refl _
      rotate k (b ∷ l) r = Perm.trans (perm_middle k (l ++ r)) (Perm.cons b (rotate k l r))

  -- A sort reorders what the elements contribute.
  pub sort_by-collect :
      (lt : A → A → Bool) (f : A → List B) (xs : List A)
      → Perm (collect f (sort_by lt xs)) (collect f xs)
  unfolding sort_by
  sort_by-collect lt f [] = Perm.refl _
  sort_by-collect lt f (x ∷ xs) =
      Perm.trans (insert_by-collect lt f x (sort_by lt xs))
        (Perm.append_left (f x) (sort_by-collect lt f xs))

-- A value that gains `b` by the change `g`, and has nothing when it is new, makes the map gain `b`.
upsert-collect :
    {K A B : Type 0} (eq lt : K → K → Bool) (k : K) (fresh : A) (g : A → A) (f : A → List B) (b : B)
    → f fresh ≡ []
    → ((a : A) → f (g a) ≡ f a ++ (b ∷ []))
    → (m : List (K × A))
    → Perm (collect (λ e. f e.1) (upsert eq lt k fresh g m)) (b ∷ collect (λ e. f e.1) m)
unfolding upsert
upsert-collect eq lt k fresh g f b new old [] = rw (old fresh, new) (Perm.refl _)
upsert-collect eq lt k fresh g f b new old ((j, a) ∷ m) = elim (Bool-cases (eq j k)) [
  | inl same ↦ rw (same, old a, append_assoc) (perm_middle (f a) (collect (λ e. f e.1) m))
  | inr other ↦ elim (Bool-cases (lt k j)) [
    | inl before ↦ rw (other, before, old fresh, new) (Perm.refl _)
    | inr after ↦
        rw (other, after)
          (Perm.trans (Perm.append_left (f a) (upsert-collect eq lt k fresh g f b new old m))
            (perm_middle (f a) (collect (λ e. f e.1) m)))
  ]
]

module _ {F : Type 0} ⦃d : Double F⦄ where
  members : Group F → List WorkloadProcessRef
  members group = group.workload.processes

  add_item-members :
      (item : DetectedProcess F) (group : Group F)
      → members (add_item item group) ≡ members group ++ (ref_of item ∷ [])
  unfolding members add_item describe accumulate represent
  add_item-members item group =
      elim (Bool-cases (better_representative item group.representative)) [
        | inl better ↦ rw better (described group.workload.processes)
        | inr kept ↦ rw kept (described group.workload.processes)
      ]
    where
      described :
          (refs : List WorkloadProcessRef)
          → (accumulate item (describe item refs group.workload)).processes
            ≡ members group ++ (ref_of item ∷ [])
      described [] = refl
      described (_ ∷ _) = refl

  group_items-members :
      (by_pid : List (ℤ × DetectedProcess F)) (items : List (DetectedProcess F))
      (groups : List (Bytes × Group F))
      → Perm
          (collect (λ e. members e.1) (group_items by_pid items groups))
          (map ref_of items ++ collect (λ e. members e.1) groups)
  unfolding group_items members
  group_items-members by_pid [] groups = Perm.refl _
  group_items-members by_pid (item ∷ items) groups =
      Perm.trans (group_items-members by_pid items _) (
        Perm.trans
          (Perm.append_left (map ref_of items) (
            upsert-collect beq string_less (grouping_key item by_pid) new_group (add_item item)
              members (ref_of item) refl (add_item-members item) groups))
          (perm_middle (map ref_of items) (collect (λ e. members e.1) groups)))

  finish-members :
      (groups : List (Bytes × Group F))
      → Perm
          (collect (λ w. w.processes) (map (λ e. finish e.1) groups))
          (collect (λ e. members e.1) groups)
  unfolding finish members
  finish-members [] = Perm.refl _
  finish-members ((k, group) ∷ groups) =
      Perm.append (sort_by-perm ref_less group.workload.processes) (finish-members groups)

  -- The processes that the workloads list are the detected ones, each exactly as often as it was
  -- sampled: none is lost and none stands in two workloads.
  pub build_workloads-perm :
      (snapshot : SystemSnapshot F)
      → Perm
          (collect (λ w. w.processes) (build_workloads snapshot))
          (map ref_of (detect_all snapshot.processes))
  unfolding build_workloads
  build_workloads-perm snapshot =
      let detected = detect_all snapshot.processes in
      let groups = group_items (index_by_pid detected) detected [] in
      Perm.trans (sort_by-collect workload_less (λ w. w.processes) (map (λ e. finish e.1) groups)) (
        Perm.trans (finish-members groups) (
          subst (λ l. Perm (collect (λ e. members e.1) groups) l) (append-nil (map ref_of detected))
            (group_items-members (index_by_pid detected) detected [])))
