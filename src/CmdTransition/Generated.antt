-- ===== src/CmdTransition/Generated.antt =====
-- The transitions made between two states against those that the generator makes.
use packml_ros.Base.{
  ◌≡◌, refl, sym, subst, ap, ◌∙◌, ℕ, zero, suc, String, Option, none, some, List, [], ◌∷◌, ◌++◌,
  length, get_elem?, modify, arith, Option-cases, inl, inr,
}
use mathlib.Core.Option.{some-injective}
use packml_ros.Common.{State, TransitionCmd, cmd_to_string}
use packml_ros.Store.{
  Store, PackmlState, Transition, on_command, on_state_complete, on_error, Build, ◌>>=◌, ◌>>◌, pure,
  add_transition, set_target_state, new_transition, object_at,
}
use packml_ros.Generator.{TransitionType, generate_transition, new_transition_of}
use packml_ros.CmdTransition.{new_cmd_transition}
use packml_ros.CmdTransition.Between
use packml_ros.CmdTransition.Between.{
  cmd_transition_between, state_complete_transition, error_transition,
}

abbrev unnamed : Transition → Transition
unnamed a = record a {
  trigger = elim a.trigger [
    | on_command c name ↦ on_command c ""
    | on_state_complete ↦ on_state_complete
    | on_error ↦ on_error
  ];
}

abbrev all_unnamed : List Transition → List Transition
all_unnamed [] = []
all_unnamed (a ∷ ts) = unnamed a ∷ all_unnamed ts

-- What a step leaves, but for the names of the transitions.
abbrev nameless : Option (ℕ × Store) → Option (ℕ × Store)
nameless none = none
nameless (some (t, s)) = some (t, record s { arrows = all_unnamed s.arrows })

-- The generator's way: the transition is made for its target, and then added to its source.
abbrev generated : TransitionType → ℕ → ℕ → Build ℕ
generated type from to = do t ← generate_transition to type; add_transition from t; pure t

-- The state that a command leads to, and the factory of its transitions.
abbrev factory : State → Option (ℕ → ℕ → Build ℕ)
factory State.clearing = some Between.clear
factory State.starting = some Between.start
factory State.stopping = some Between.stop
factory State.aborting = some Between.abort
factory State.holding = some Between.hold
factory State.unholding = some Between.unhold
factory State.suspending = some Between.suspend
factory State.unsuspending = some Between.unsuspend
factory State.resetting = some Between.reset
factory _ = none

append-unnamed :
    (ts : List Transition) (a b : Transition)
    → unnamed a ≡ unnamed b
    → all_unnamed (ts ++ a ∷ []) ≡ all_unnamed (ts ++ b ∷ [])
append-unnamed [] a b e = ap (λ c. c ∷ []) e
append-unnamed (t ∷ ts) a b e = ap (λ l. unnamed t ∷ l) (append-unnamed ts a b e)

modify-unnamed :
    (ts : List Transition) (a b : Transition) (i to : ℕ)
    → unnamed a ≡ unnamed b
    → all_unnamed (modify (ts ++ a ∷ []) i (λ a. record a { target = some to }))
      ≡ all_unnamed (modify (ts ++ b ∷ []) i (λ a. record a { target = some to }))
modify-unnamed [] a b zero to e = ap (λ (c : Transition). record c { target = some to } ∷ []) e
modify-unnamed [] a b (suc i) to e = ap (λ c. c ∷ []) e
modify-unnamed (t ∷ ts) a b zero to e =
    ap (λ l. unnamed (record t { target = some to }) ∷ l) (append-unnamed ts a b e)
modify-unnamed (t ∷ ts) a b (suc i) to e = ap (λ l. unnamed t ∷ l) (modify-unnamed ts a b i to e)

-- Two transitions of one command, made between the same states.
renamed :
    (c : TransitionCmd) (x y : String) (from to : ℕ) (s : Store)
    → nameless (cmd_transition_between c x from to s)
      ≡ nameless (cmd_transition_between c y from to s)
unfolding cmd_transition_between new_cmd_transition new_transition set_target_state add_transition
renamed c x y from to s =
    let k = length s.arrows in
    let t : String → Transition = λ name. record { trigger = on_command c name; target = none } in
    ap
      (λ l. some (
        k,
        record s {
          arrows = l;
          objects = modify s.objects from (λ o. record o { transitions = o.transitions ++ k ∷ [] });
        },
      ))
      (modify-unnamed s.arrows (t x) (t y) k to refl)

-- what the generator makes for a target in a state
for_target : State → ℕ → ℕ → Build ℕ
unfolding new_transition_of
for_target state from to = do
  t ← new_transition_of TransitionType.command state
  set_target_state t to
  add_transition from t
  pure t

generated-for_target :
    (from to : ℕ) (o : PackmlState) (s : Store)
    → get_elem? s.objects to ≡ some o
    → generated TransitionType.command from to s ≡ for_target o.state from to s
unfolding generate_transition for_target object_at
generated-for_target from to o s e =
    elim (Option-cases (new_transition_of TransitionType.command o.state s)) [
      | inl n ↦ ground (arith, e, n)
      | inr ((t, u), n) ↦ ground (arith, e, n)
    ]

same :
    (made make : ℕ → ℕ → Build ℕ) (state : State) (from to : ℕ) (s : Store)
    → some made ≡ some make
    → nameless (made from to s) ≡ nameless (for_target state from to s)
    → nameless (make from to s) ≡ nameless (for_target state from to s)
same made make state from to s f h =
    subst
      (λ (make : ℕ → ℕ → Build ℕ).
        nameless (make from to s) ≡ nameless (for_target state from to s))
      (some-injective made make f) h

factory-for_target :
    (state : State) (from to : ℕ) (make : ℕ → ℕ → Build ℕ) (s : Store)
    → factory state ≡ some make
    → nameless (make from to s) ≡ nameless (for_target state from to s)
unfolding for_target Between.clear cmd_transition_between set_target_state Between.start
    Between.stop Between.abort Between.hold Between.unhold Between.suspend Between.unsuspend
    Between.reset
factory-for_target State.clearing from to make s f =
    same Between.clear make State.clearing from to s f
      (renamed TransitionCmd.clear "clear" (cmd_to_string TransitionCmd.clear) from to s)
factory-for_target State.starting from to make s f =
    same Between.start make State.starting from to s f
      (renamed TransitionCmd.start "start" (cmd_to_string TransitionCmd.start) from to s)
factory-for_target State.stopping from to make s f =
    same Between.stop make State.stopping from to s f
      (renamed TransitionCmd.stop "stop" (cmd_to_string TransitionCmd.stop) from to s)
factory-for_target State.aborting from to make s f =
    same Between.abort make State.aborting from to s f
      (renamed TransitionCmd.abort "abort" (cmd_to_string TransitionCmd.abort) from to s)
factory-for_target State.holding from to make s f =
    same Between.hold make State.holding from to s f
      (renamed TransitionCmd.hold "hold" (cmd_to_string TransitionCmd.hold) from to s)
factory-for_target State.unholding from to make s f =
    same Between.unhold make State.unholding from to s f
      (renamed TransitionCmd.unhold "unhold" (cmd_to_string TransitionCmd.unhold) from to s)
factory-for_target State.suspending from to make s f =
    same Between.suspend make State.suspending from to s f
      (renamed TransitionCmd.suspend "suspend" (cmd_to_string TransitionCmd.suspend) from to s)
factory-for_target State.unsuspending from to make s f =
    same Between.unsuspend make State.unsuspending from to s f (
      renamed TransitionCmd.unsuspend "unsuspend" (cmd_to_string TransitionCmd.unsuspend) from to s)
factory-for_target State.resetting from to make s f =
    same Between.reset make State.resetting from to s f
      (renamed TransitionCmd.reset "reset" (cmd_to_string TransitionCmd.reset) from to s)
factory-for_target _ from to make s f = ground (arith, f)

state_complete-generated :
    (from to : ℕ) (o : PackmlState) (s : Store)
    → get_elem? s.objects to ≡ some o
    → state_complete_transition from to s ≡ generated TransitionType.state_completed from to s
unfolding generate_transition object_at state_complete_transition new_transition new_transition_of
state_complete-generated from to o s e = ground (arith, e)

error-generated :
    (from to : ℕ) (o : PackmlState) (s : Store)
    → get_elem? s.objects to ≡ some o
    → error_transition from to s ≡ generated TransitionType.error from to s
unfolding generate_transition object_at error_transition new_transition new_transition_of
error-generated from to o s e = ground (arith, e)

-- For a target object that is there, the transitions on completion and on error that are made
-- between two states leave the same store and address as the generator's way, to make the
-- transition for its target and then to add it to its source; so does each of the nine command
-- factories for a target in the state that its command leads to, but for the transition's name.
between-generated :
    (from to : ℕ) (o : PackmlState) (s : Store)
    → get_elem? s.objects to ≡ some o
    → (state_complete_transition from to s ≡ generated TransitionType.state_completed from to s)
      × (error_transition from to s ≡ generated TransitionType.error from to s)
      × ((make : ℕ → ℕ → Build ℕ)
          → factory o.state ≡ some make
          → nameless (make from to s) ≡ nameless (generated TransitionType.command from to s))
between-generated from to o s e = (
  state_complete-generated from to o s e,
  error-generated from to o s e,
  λ make f.
      factory-for_target o.state from to make s f
      ∙ ap nameless (sym (generated-for_target from to o s e)),
)
