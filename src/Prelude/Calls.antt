-- ===== src/Prelude/Calls.antt =====
-- Calls that read and change a state, one after the other, against a model of the state.
use mathlib.Core.List.{List, [], ◌∷◌}
use mathlib.Core.Path.{◌≡◌, refl}
use orb_weaver.Prelude.Runs.{Run, ok, ◌>>=◌}

-- What is asked of the code: each call, on a state that stands for the model, returns what is
-- expected and leaves a state that stands for the model behind the call.
pub record Simulates {ℓ κ μ ν} {Call : Type ℓ} {State : Type κ} {Answer : Type μ} {Model : Type ν}
    (perform : Call → State → Run (Answer × State)) (Allowed : Call → Model → Type 0)
    (expected : Call → Model → Answer) (behind : Call → Model → Model)
    (Stands : State → Model → Type 0) : Type (ℓ ⊔ κ ⊔ μ ⊔ ν) where
  pub performs :
      (call : Call) (s : State) (m : Model)
      → Stands s m
      → Allowed call m
      → (s' : State) × (perform call s ≡ ok (expected call m, s')) × Stands s' (behind call m)

unfoldable pub perform_all {ℓ κ μ} :
    {Call : Type ℓ} {State : Type κ} {Answer : Type μ}
    → (Call → State → Run (Answer × State))
    → List Call
    → State
    → Run (List Answer × State)
perform_all perform [] s = ok ([], s)
perform_all perform (call ∷ calls) s = do
  (answer, s') ← perform call s
  (answers, s'') ← perform_all perform calls s'
  ok (answer ∷ answers, s'')

module _ {ℓ ν} {Call : Type ℓ} {Model : Type ν} (behind : Call → Model → Model) where
  abbrev pub behind_all : List Call → Model → Model
  behind_all [] m = m
  behind_all (call ∷ calls) m = behind_all calls (behind call m)

  abbrev pub all_expected {μ} :
      {Answer : Type μ} → (Call → Model → Answer) → List Call → Model → List Answer
  all_expected expected [] m = []
  all_expected expected (call ∷ calls) m =
      expected call m ∷ all_expected expected calls (behind call m)

  abbrev pub AreAllowed : (Call → Model → Type 0) → List Call → Model → Type 0
  AreAllowed Allowed [] m = Unit
  AreAllowed Allowed (call ∷ calls) m = Allowed call m × AreAllowed Allowed calls (behind call m)

pub perform_all-Stands {ℓ κ μ ν} :
    {Call : Type ℓ} {State : Type κ} {Answer : Type μ} {Model : Type ν}
    {perform : Call → State → Run (Answer × State)} {Allowed : Call → Model → Type 0}
    {expected : Call → Model → Answer} {behind : Call → Model → Model}
    {Stands : State → Model → Type 0}
    → Simulates perform Allowed expected behind Stands
    → (calls : List Call) (s : State) (m : Model) → Stands s m
    → AreAllowed behind Allowed calls m
    → (s' : State) × (perform_all perform calls s ≡ ok (all_expected behind expected calls m, s'))
      × Stands s' (behind_all behind calls m)
unfolding perform_all
perform_all-Stands laws [] s m h allowed = (s, refl, h)
perform_all-Stands {behind} laws (call ∷ calls) s m h (first, others) =
    let (s', run, h') = laws.performs call s m h first in
    let (s'', rest, h'') = perform_all-Stands laws calls s' (behind call m) h' others in
    (s'', rw (run, rest) refl, h'')
