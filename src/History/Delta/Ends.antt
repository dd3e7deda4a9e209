-- ===== src/History/Delta/Ends.antt =====
-- The loop of compute of src/data/history/HistoryDelta.ts comes to its end where the store is complete.
use hyperhyperspace_core.Prelude.{
  ℕ, zero, suc, ◌<◌, ◌≡◌, refl, ◌∙◌, ap, Hash, true, false, List, [], ◌∷◌, Option, none, length,
  string_key, arith, Bool-cases, Option-cases, inl, inr,
}
use hyperhyperspace_core.Js.Map
use hyperhyperspace_core.Js.Set
use hyperhyperspace_core.History.Outside.{outside, outside_lt, outside-length}
use hyperhyperspace_core.History.Header.{OpHeader}
use hyperhyperspace_core.History.Fragment.{new, is_empty}
use hyperhyperspace_core.History.Fragment.Spec.{missing_iff}
use hyperhyperspace_core.History.Queries.{get_starting_op_headers}
use hyperhyperspace_core.History.Loading.Complete.{IsComplete}
use hyperhyperspace_core.History.Delta.{
  Delta, goes_on, new_delta, update_gap, move, load_start, fetch, load_targets, extend, turn, turns,
  compute, least_height,
}
use hyperhyperspace_core.History.Delta.Sound.{
  FindsByHash, move-IsSound, update_gap-IsSound, new-IsSound,
}
use hyperhyperspace_core.History.Delta.Steps.{
  known, Grows, missing_or_all, Fit, Step, remove-IsWithin, backtrack-Step, fetch-Step,
  extend-Extended, extend_idle, gap_closed, empty_of_none,
}

module _ (load : Hash → Option OpHeader) (found : FindsByHash load) (all : List Hash)
    (complete : IsComplete load all) where
  module _ (max_delta_size max_backtrack_size : ℕ) where
    missing_in_all :
        (d : Delta) (x : Hash)
        → Fit load found all complete d
        → Set.has x d.fragment.missing_prev_op_headers ≡ true
        → (Set.has x all ≡ true) × (Map.has x d.fragment.contents ≡ false)
    missing_in_all d x s m =
        let (n, (y, e)) = (missing_iff d.fragment s.sound.fragment x).0 m in (s.within y x e, n)

    -- A turn after which the loop goes on comes to know a hash.
    record Turned (d e : Delta) : Type 0 where
      fit : Fit load found all complete e
      grows : Grows d e
      learns :
          goes_on max_delta_size e ≡ true
          → (y : Hash) × (Set.has y all ≡ true) × (known d y ≡ false) × (known e y ≡ true)

    update_gap-Fit :
        (d : Delta) → Fit load found all complete d → Fit load found all complete (update_gap d)
    unfolding update_gap
    update_gap-Fit d s = record {
      sound = update_gap-IsSound load found d s.sound;
      within = s.within;
    }

    extended-Turned :
        (d back : Delta)
        → Step load found all complete d back
        → Turned d
            (update_gap (extend load max_delta_size back.fragment.missing_prev_op_headers back))
    unfolding update_gap
    extended-Turned d back b =
        let missing = back.fragment.missing_prev_op_headers in
        let x =
          extend-Extended load found all complete max_delta_size missing back
            (λ y m. (missing_in_all back y b.fit m).0) b.fit in
        record {
          fit = update_gap-Fit _ x.step.fit;
          grows = λ y k. x.step.grows y (b.grows y k);
          learns = λ g. elim (missing_or_all missing back.start) [
            | inl (y, m, n) ↦
                let (i, v) = missing_in_all back y b.fit m in
                (y, i, ground (arith, b.grows y, n, v), x.knows (ground (arith, g)) y m)
            | inr k ↦ absurd (
                ground (
                  arith,
                  g,
                  ap (λ z. is_empty (update_gap z).gap)
                      (extend_idle load found all complete max_delta_size missing back k),
                  empty_of_none load found all complete (update_gap back).gap
                      (gap_closed load found all complete back k),
                ))
          ];
        }

    turn-Turned :
        (d : Delta)
        → Fit load found all complete d
        → Turned d (turn load max_delta_size max_backtrack_size d)
    unfolding turn
    turn-Turned d s = extended-Turned d _ (
        backtrack-Step load found all complete max_backtrack_size
          (least_height (get_starting_op_headers d.fragment) d.fragment none)
          d.start.missing_prev_op_headers d s)

    -- No turn is made where the loop does not go on.
    turns_stopped :
        (n : ℕ) (d : Delta)
        → goes_on max_delta_size d ≡ false
        → turns load max_delta_size max_backtrack_size n d ≡ d
    unfolding turns
    turns_stopped zero d e = refl
    turns_stopped (suc n) d e = rw e refl

    turns_going :
        (n : ℕ) (d : Delta)
        → goes_on max_delta_size d ≡ true
        → turns load max_delta_size max_backtrack_size (suc n) d
          ≡ turns load max_delta_size max_backtrack_size n
              (turn load max_delta_size max_backtrack_size d)
    unfolding turns
    turns_going n d e = rw e refl

    -- The loop ends within one turn more than there are hashes that are not known.
    turns_end :
        (n : ℕ) (d : Delta)
        → Fit load found all complete d
        → outside (known d) all < n
        → goes_on max_delta_size (turns load max_delta_size max_backtrack_size n d) ≡ false
    turns_end zero d s b = absurd (omega (arith, b))
    turns_end (suc n) d s b =
        let next = turn load max_delta_size max_backtrack_size d in
        elim (Bool-cases (goes_on max_delta_size d)) [
          | inr e ↦ ap (goes_on max_delta_size) (turns_stopped (suc n) d e) ∙ e
          | inl e ↦
              let t = turn-Turned d s in
              ap (goes_on max_delta_size) (turns_going n d e)
              ∙ elim (Bool-cases (goes_on max_delta_size next)) [
                | inr u ↦ ap (goes_on max_delta_size) (turns_stopped n next u) ∙ u
                | inl u ↦
                    let (y, i, v, w) = t.learns u in
                    turns_end n next t.fit
                      (omega (arith, b, outside_lt (known d) (known next) t.grows y all i v w))
              ]
        ]

    load_start-Fit :
        (xs : List Hash) (d : Delta)
        → Fit load found all complete d
        → Fit load found all complete (load_start load xs d)
    unfolding load_start move
    load_start-Fit [] d s = s
    load_start-Fit (x ∷ xs) d s = elim (Option-cases (load x)) [
      | inl e ↦ rw (e, load_start) (load_start-Fit xs d s)
      | inr (h, e) ↦
          rw (e, load_start)
            (load_start-Fit xs (move load h d) (record {
              sound = move-IsSound load found h d s.sound;
              within =
                  remove-IsWithin load found all complete h.header_hash d.fragment s.sound.fragment
                    s.within;
            }))
    ]

    load_targets-Fit :
        (xs : List Hash) (d : Delta)
        → ((x : Hash) → Set.has x xs ≡ true → Set.has x all ≡ true)
        → Fit load found all complete d
        → Fit load found all complete (load_targets load xs d)
    unfolding load_targets Set.has
    load_targets-Fit [] d a s = s
    load_targets-Fit (x ∷ xs) d a s =
        load_targets-Fit xs (fetch load x d) (λ y m. a y (ground (arith, m)))
          (fetch-Step load found all complete x d (a x (Set.has-head x xs)) s).0.fit

    new-Fit : (target : Hash) → Fit load found all complete (new_delta target)
    unfolding new_delta new Map.get
    new-Fit target = record { sound = new-IsSound target; within = λ x p e. cc }

    -- If the store finds headers under their own hashes, and a list has, with each hash, those of
    -- the predecessors of its header, which the store has, then the loop of compute on a new
    -- delta, for targets in the list, ends within one turn more than the list has hashes,
    -- whatever the starting hashes and the limits are.
    pub compute_ends :
        (target : Hash) (n : ℕ) (targets starting : List Hash)
        → ((x : Hash) → Set.has x targets ≡ true → Set.has x all ≡ true)
        → length all < n
        → goes_on max_delta_size
            (compute load max_delta_size max_backtrack_size n targets starting (new_delta target))
          ≡ false
    unfolding compute
    compute_ends target n targets starting a b =
        let d = load_targets load targets (load_start load starting (new_delta target)) in
        let s =
          update_gap-Fit d
            (load_targets-Fit targets _ a (load_start-Fit starting _ (new-Fit target))) in
        turns_end n (update_gap d) s (omega (arith, b, outside-length (known (update_gap d)) all))
