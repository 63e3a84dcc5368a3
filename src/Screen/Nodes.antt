-- ===== src/Screen/Nodes.antt =====
-- src/main.cpp: collapsing and expanding the nodes of the process tree.
use mtop.Base.{
  sym, subst, ◌∙◌, ap, ◌≡◌, refl, arith, true, not, ◌&&◌, ◌||◌, List, [], ◌∷◌, some, if_rule,
}
use mtop.Base.Int.{ℤ, eqb_ℤ, eqb_ℤ_iff}
use mtop.Screen.Actions.{
  insert, erase, is_parent_row, expand_selected, collapse_selected, collapse_at,
}
use mtop.Screen.{UiState, ProcessRow, has, keep}

has-erase : (pids : List ℤ) (pid q : ℤ) → has (erase pid pids) q ≡ (has pids q && not (eqb_ℤ q pid))
unfolding erase has keep
has-erase [] pid q = refl
has-erase (p ∷ pids) pid q = ground (arith, has-erase pids pid q)

has-insert : (pids : List ℤ) (pid q : ℤ) → has (insert pid pids) q ≡ (has pids q || eqb_ℤ q pid)
unfolding insert has
has-insert pids pid q =
    let same = λ (e : eqb_ℤ q pid ≡ true). ap (has pids) ((eqb_ℤ_iff q pid).0 e) in
    ground (arith, same)

expand_selected-has :
    (state : UiState) (pid q : ℤ)
    → state.selected_pid ≡ some pid
    → has (expand_selected state).collapsed_pids q
      ≡ (has state.collapsed_pids q && not (eqb_ℤ q pid))
unfolding expand_selected
expand_selected-has state pid q h = rw h (has-erase state.collapsed_pids pid q)

module _ {F : Type 0} where
  collapse_selected-has :
      (state : UiState) (rows : List (ProcessRow F)) (pid q : ℤ)
      → state.selected_pid ≡ some pid
      → ((collapse_selected state rows).selected_pid ≡ some pid)
        × (has (collapse_selected state rows).collapsed_pids q
            ≡ (has state.collapsed_pids q || (eqb_ℤ q pid && is_parent_row rows pid)))
  unfolding collapse_selected collapse_at
  collapse_selected-has state rows pid q h =
      let P : UiState → Type 0 = λ s.
        (s.selected_pid ≡ some pid)
        × (has s.collapsed_pids q
            ≡ (has state.collapsed_pids q || (eqb_ℤ q pid && is_parent_row rows pid))) in
      subst (λ o. P (collapse_at o state rows)) (sym h)
        (if_rule P (is_parent_row rows pid)
          (λ e. (h, ground (arith, has-insert state.collapsed_pids pid q)))
          (λ e. (h, ground arith)))

  -- Collapsing the selected node collapses it, if it has children, and no other node; expanding it
  -- afterwards leaves it expanded, whatever it was before, and changes no other node.
  collapse_selected-expand_selected :
      (state : UiState) (rows : List (ProcessRow F)) (pid q : ℤ)
      → state.selected_pid ≡ some pid
      → (has (collapse_selected state rows).collapsed_pids q
          ≡ (has state.collapsed_pids q || (eqb_ℤ q pid && is_parent_row rows pid)))
        × (has (expand_selected (collapse_selected state rows)).collapsed_pids q
            ≡ (has state.collapsed_pids q && not (eqb_ℤ q pid)))
  collapse_selected-expand_selected state rows pid q h =
      let (selected, e) = collapse_selected-has state rows pid q h in
      (e, expand_selected-has (collapse_selected state rows) pid q selected ∙ ground (arith, e))
