-- ===== src/Workload/Totals.antt =====
-- src/workload_model.cpp: the memory sizes that build_workloads adds up, and the order of its result.
use mtop.Base.{
  ap, sym, ◌∙◌, ℕ, ◌≡◌, refl, arith, Bool, List, [], ◌∷◌, map, Bool-cases, inl, inr, beq,
  string_less, Bytes,
}
use mtop.Base.Double.{Double}
use mtop.Base.Int.{ℤ}
use mtop.Base.OrderedMap.{upsert}
use mtop.Base.Orders.{Always, All-Always, string_order}
use mtop.Base.Sort.{sort_by, insert_by, IsSorted, IsStrictWeak, sort_by-IsSorted}
use mtop.Snapshot.{SystemSnapshot, add_u64}
use mtop.Workload.Build.{
  Group, new_group, describe, accumulate, represent, add_item, group_items, workload_less, finish,
  build_workloads,
}
use mtop.Workload.Grouping.{
  DetectedProcess, detect_all, index_by_pid, grouping_key, better_representative,
}
use mtop.Workload.{WorkloadSnapshot, WorkloadProcessRef}

add_u64_left_comm : (a b c : ℕ) → add_u64 a (add_u64 b c) ≡ add_u64 b (add_u64 a c)
unfolding add_u64
add_u64_left_comm a b c = omega arith

-- (b + a) + c, as the code adds it up
add_u64_assoc : (a b c : ℕ) → add_u64 (add_u64 a b) c ≡ add_u64 b (add_u64 a c)
unfolding add_u64
add_u64_assoc a b c = omega arith

drop_zero : (b t : ℕ) → add_u64 b (add_u64 0 t) ≡ add_u64 b t
unfolding add_u64
drop_zero b t = omega arith

-- The sum of the values `f`, as std::uint64_t.
unfoldable pub total : {A : Type 0} → (A → ℕ) → List A → ℕ
total f [] = 0
total f (x ∷ xs) = add_u64 (f x) (total f xs)

total-reduced_right : {A : Type 0} (f : A → ℕ) (xs : List A) → add_u64 (total f xs) 0 ≡ total f xs
unfolding total add_u64
total-reduced_right f [] = refl
total-reduced_right f (x ∷ xs) = omega arith

total-reduced : {A : Type 0} (f : A → ℕ) (xs : List A) → add_u64 0 (total f xs) ≡ total f xs
unfolding total add_u64
total-reduced f [] = refl
total-reduced f (x ∷ xs) = omega arith

module _ {A : Type 0} (lt : A → A → Bool) (f : A → ℕ) where
  insert_by-total : (x : A) (xs : List A) → total f (insert_by lt x xs) ≡ total f (x ∷ xs)
  unfolding insert_by total
  insert_by-total x [] = refl
  insert_by-total x (y ∷ ys) = elim (Bool-cases (lt y x)) [
    | inl below ↦ rw (below, insert_by-total x ys) (add_u64_left_comm (f y) (f x) (total f ys))
    | inr above ↦ rw above refl
  ]

  sort_by-total : (xs : List A) → total f (sort_by lt xs) ≡ total f xs
  unfolding sort_by total
  sort_by-total [] = refl
  sort_by-total (x ∷ xs) = rw (insert_by-total x (sort_by lt xs), sort_by-total xs) refl

upsert-total :
    {K A : Type 0} (eq lt : K → K → Bool) (k : K) (fresh : A) (g : A → A) (f : A → ℕ) (b : ℕ)
    → f fresh ≡ 0
    → ((a : A) → f (g a) ≡ add_u64 (f a) b)
    → (m : List (K × A))
    → total (λ e. f e.1) (upsert eq lt k fresh g m) ≡ add_u64 b (total (λ e. f e.1) m)
unfolding upsert total add_u64
upsert-total eq lt k fresh g f b new old [] = rw (old fresh, new) (add_u64_assoc 0 b 0)
upsert-total eq lt k fresh g f b new old ((j, a) ∷ m) = elim (Bool-cases (eq j k)) [
  | inl same ↦ rw (same, old a) (add_u64_assoc (f a) b (total (λ e. f e.1) m))
  | inr other ↦ elim (Bool-cases (lt k j)) [
    | inl before ↦
        rw (other, before, old fresh, new)
          (add_u64_assoc 0 b (add_u64 (f a) (total (λ e. f e.1) m)) ∙ drop_zero b _)
    | inr after ↦
        rw (other, after, upsert-total eq lt k fresh g f b new old m)
          (add_u64_left_comm (f a) b (total (λ e. f e.1) m))
  ]
]

module _ {F : Type 0} ⦃d : Double F⦄ where
  size : Group F → ℕ
  size group = group.workload.resident_bytes

  weight : DetectedProcess F → ℕ
  weight item = item.process.resident_bytes

  add_item-size :
      (item : DetectedProcess F) (group : Group F)
      → size (add_item item group) ≡ add_u64 (size group) (weight item)
  unfolding size weight add_item describe accumulate represent
  add_item-size item group = elim (Bool-cases (better_representative item group.representative)) [
    | inl better ↦ rw better (described group.workload.processes)
    | inr kept ↦ rw kept (described group.workload.processes)
  ]
    where
      described :
          (refs : List WorkloadProcessRef)
          → (accumulate item (describe item refs group.workload)).resident_bytes
            ≡ add_u64 (size group) (weight item)
      described [] = refl
      described (_ ∷ _) = refl

  group_items-size :
      (by_pid : List (ℤ × DetectedProcess F)) (items : List (DetectedProcess F))
      (groups : List (Bytes × Group F))
      → total (λ e. size e.1) (group_items by_pid items groups)
        ≡ add_u64 (total weight items) (total (λ e. size e.1) groups)
  unfolding group_items total size
  group_items-size by_pid [] groups = sym (total-reduced (λ e. size e.1) groups)
  group_items-size by_pid (item ∷ items) groups =
      group_items-size by_pid items _
      ∙ (ap (add_u64 (total weight items)) (
            upsert-total beq string_less (grouping_key item by_pid) new_group (add_item item) size
              (weight item) refl (add_item-size item) groups)
          ∙ sym (add_u64_assoc (weight item) (total weight items) (total (λ e. size e.1) groups)))

  finish-size :
      (groups : List (Bytes × Group F))
      → total (λ w. w.resident_bytes) (map (λ e. finish e.1) groups) ≡ total (λ e. size e.1) groups
  unfolding finish size total
  finish-size [] = refl
  finish-size ((k, group) ∷ groups) = rw (finish-size groups) refl

  -- The workloads' resident sizes add up to those of the detected processes, modulo 2 ^ 64.
  pub build_workloads-total :
      (snapshot : SystemSnapshot F)
      → total (λ w. w.resident_bytes) (build_workloads snapshot)
        ≡ total (λ item. item.process.resident_bytes) (detect_all snapshot.processes)
  unfolding build_workloads weight total
  build_workloads-total snapshot =
      let detected = detect_all snapshot.processes in
      let groups = group_items (index_by_pid detected) detected [] in
      sort_by-total workload_less (λ w. w.resident_bytes) (map (λ e. finish e.1) groups)
      ∙ (finish-size groups ∙ group_items-size (index_by_pid detected) detected [])
      ∙ total-reduced_right weight detected

-- Larger workloads come first, and those of one size are in the order of their names.
workload_less-IsStrictWeak :
    {F : Type 0} → IsStrictWeak {A = WorkloadSnapshot F} Always workload_less
unfolding workload_less
workload_less-IsStrictWeak = record {
  irrefl = λ a _. ground (arith, string_order.irrefl a.name tt);
  asymm = λ a b _ _ h.
      ground
        (arith, string_order.irrefl a.name tt, string_order.trans a.name b.name a.name tt tt tt);
  cotrans = λ a b c _ _ _ h k. ground (arith, string_order.cotrans a.name b.name c.name tt tt tt);
}

module _ {F : Type 0} ⦃d : Double F⦄ where
  -- The workloads are sorted: a later one never has more resident bytes than an earlier one, nor, at
  -- the same size, a name that comes before.
  build_workloads-IsSorted :
      (snapshot : SystemSnapshot F) → IsSorted workload_less (build_workloads snapshot)
  unfolding build_workloads
  build_workloads-IsSorted snapshot = sort_by-IsSorted workload_less-IsStrictWeak _ (All-Always _)
