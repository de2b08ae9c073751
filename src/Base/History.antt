-- ===== src/Base/History.antt =====
-- Histories of calls that put items into a component and take items out of it: the order of a whole
-- history follows from that of each call.
use mathlib.Core.Path.{◌≡◌, sym, ap, ◌∙◌}
use mathlib.Core.List.{List, [], ◌∷◌, ◌++◌, append-nil, append_assoc}
use esp32emu.Base.Lists.{All}

module _ {S C A : Type 0} (step : S → C → S × List A × List A) where
  -- The state after the calls, what they put in and what they took out.
  abbrev pub run : S → List C → S × List A × List A
  run s [] = (s, [], [])
  run s (c ∷ cs) =
      let (s', put, got) = step s c in
      let (s'', puts, gots) = run s' cs in (s'', put ++ puts, got ++ gots)

  module _ (view : S → List A) (Inv : S → Type 0) (Ok : C → Type 0) where
    -- One call: what it takes out and then what waits is what waited and then what it puts in.
    abbrev pub IsOrderly : Type 0
    IsOrderly =
        (s : S) (c : C)
        → Inv s
        → Ok c
        → Inv (step s c).0 × ((step s c).2 ++ view (step s c).0 ≡ view s ++ (step s c).1)

    pub run_kept : IsOrderly → (cs : List C) (s : S) → Inv s → All Ok cs → Inv (run s cs).0
    run_kept law [] s v h = v
    run_kept law (c ∷ cs) s v h = run_kept law cs (step s c).0 (law s c v h.0).0 h.1

    pub run_order :
        IsOrderly
        → (cs : List C) (s : S) → Inv s
        → All Ok cs
        → let (s', put, got) = run s cs in got ++ view s' ≡ view s ++ put
    run_order law [] s v h = sym (append-nil (view s))
    run_order law (c ∷ cs) s v h =
        let one = law s c v h.0 in
        let rest = run_order law cs (step s c).0 one.0 h.1 in
        append_assoc (step s c).2 (run (step s c).0 cs).2 _
        ∙ ap (λ t. (step s c).2 ++ t) rest
        ∙ sym (append_assoc (step s c).2 (view (step s c).0) _)
        ∙ ap (λ t. t ++ (run (step s c).0 cs).1) one.1
        ∙ append_assoc (view s) (step s c).1 _
