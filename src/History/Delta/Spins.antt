-- ===== src/History/Delta/Spins.antt =====
-- The loop of compute of src/data/history/HistoryDelta.ts where the store misses a header.
use hyperhyperspace_core.Prelude.{
  ℕ, zero, suc, ◌<◌, ◌≡◌, ◌∙◌, ap, sym, Hash, true, false, [], ◌∷◌, Option, none, length,
  string_key, arith,
}
use hyperhyperspace_core.Js.Map
use hyperhyperspace_core.Js.Set
use hyperhyperspace_core.History.Header.{OpHeader}
use hyperhyperspace_core.History.Fragment.{is_empty}
use hyperhyperspace_core.History.Queries.{get_starting_op_headers}
use hyperhyperspace_core.History.Delta.{
  Delta, goes_on, update_gap, gap_of, fetch, backtrack, extend, turn, turns, least_height,
}

-- The fragment misses one header that neither the start nor the store has, and the start misses none.
pub record IsStuck (load : Hash → Option OpHeader) (max_delta_size : ℕ) (x : Hash) (d : Delta)
    : Type 0 where
  pub missing : d.fragment.missing_prev_op_headers ≡ x ∷ []
  pub start_missing : d.start.missing_prev_op_headers ≡ []
  pub not_stored : load x ≡ none
  pub not_started : Map.has x d.start.contents ≡ false
  pub gap : d.gap ≡ x ∷ []
  pub below : length d.fragment.contents < max_delta_size

module _ (load : Hash → Option OpHeader) (max_delta_size max_backtrack_size : ℕ) (x : Hash)
    (d : Delta) (stuck : IsStuck load max_delta_size x d) where
  backtrack_idle :
      (h : Option ℕ) → backtrack load max_backtrack_size h d.start.missing_prev_op_headers d ≡ d
  unfolding backtrack
  backtrack_idle h = ap (λ xs. backtrack load max_backtrack_size h xs d) stuck.start_missing

  extend_nothing : extend load max_delta_size d.fragment.missing_prev_op_headers d ≡ d
  unfolding extend fetch
  extend_nothing =
      ap (λ xs. extend load max_delta_size xs d) stuck.missing
      ∙ ground (arith, stuck.not_stored, stuck.not_started, stuck.below)

  gap_same : update_gap d ≡ d
  unfolding update_gap gap_of Set.add Set.has
  gap_same =
      ap (λ g. record d { gap = g })
        (ap (λ xs. gap_of xs d.start []) stuck.missing
          ∙ ground (arith, stuck.not_started)
          ∙ sym stuck.gap)

  turn_same : turn load max_delta_size max_backtrack_size d ≡ d
  unfolding turn
  turn_same =
      ap (λ z. update_gap (extend load max_delta_size z.fragment.missing_prev_op_headers z))
        (backtrack_idle (least_height (get_starting_op_headers d.fragment) d.fragment none))
      ∙ ap update_gap extend_nothing
      ∙ gap_same

  -- If the fragment of a delta is below its limit and misses just one header, which neither the
  -- start nor the store has, the start misses none, and the gap is that header, then the loop of
  -- compute goes on after any number of turns.
  pub turns_spin :
      (n : ℕ) → goes_on max_delta_size (turns load max_delta_size max_backtrack_size n d) ≡ true
  unfolding turns
  turns_spin zero = ground (arith, ap is_empty stuck.gap, stuck.below)
  turns_spin (suc n) = ground (arith, turns_spin n, ap is_empty stuck.gap, stuck.below, turn_same)
