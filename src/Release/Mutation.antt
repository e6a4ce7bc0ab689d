-- ===== src/Release/Mutation.antt =====
-- MutationService of packages/shared/mutation/service.py. A callable that it is given is a change of
-- the state that may raise; what it has changed stays changed.
use ai_devops.Common.{Option, none, some, List, [], ◌∷◌}

abbrev pub Action : Type 0 → Type 0 → Type 0
Action S E = S → S × Option E

module _ {S E : Type 0} where
  -- the loop over publish_events
  unfoldable pub publish_all : List (Action S E) → Action S E
  publish_all [] s = (s, none)
  publish_all (p ∷ ps) s =
      let (s', raised) = p s in elim raised [ some e ↦ (s', some e) | none ↦ publish_all ps s' ]

  -- the `except` branch: an exception of the rollback takes the place of the first
  unfoldable pub undo : Option (Action S E) → E → Action S E
  undo none e s = (s, some e)
  undo (some rollback) e s =
      let (s', raised) = rollback s in elim raised [ some e' ↦ (s', some e') | none ↦ (s', some e) ]

  -- apply
  unfoldable pub apply :
      Action S E → Action S E → List (Action S E) → Option (Action S E) → Action S E
  unfolding publish_all undo
  apply persist audit publish_events rollback s =
      let (s1, r1) = persist s in
      elim r1 [
        | some e ↦ (s1, some e)
        | none ↦
            let (s2, r2) = audit s1 in
            elim r2 [ some e ↦ undo rollback e s2 | none ↦ publish_all publish_events s2 ]
      ]
