-- ===== src/Handler/AutoLoop/Total.antt =====
-- The bound and the ending of the loop.
use zai_proxy.Base.{ℕ, ◌≤◌, ◌≡◌, ◌≢◌, true, List, ◌∷◌, ◌++◌, length}
use zai_proxy.Text.{Bytes}
use zai_proxy.Model.Types.{Message}
use zai_proxy.Handler.Turn.{all_tool_calls_auto_executable}
use zai_proxy.Handler.AutoLoop.{
  failed, rounds_exceeded, Reply, Env, RoundResult, stop, again, LoopResult,
  max_automatic_builtin_tool_rounds, assistant_message,
}
use zai_proxy.Handler.AutoLoop.Dialogue.{Outputs, Gives, Ends, Dialogue}

module _ {W Body Err : Type 0} (env : Env W Body Err) (names : List Bytes) where
  -- What one round does, by its result.
  abbrev Fits : Reply Body Err → W → ℕ → List Message → RoundResult W Err → Type 0
  Fits reply w1 round ms (stop ending name w) =
      Ends env names reply ending
      × (w ≡ w1)
      × (ending ≡ failed rounds_exceeded → round ≡ max_automatic_builtin_tool_rounds)
  Fits reply w1 round ms (again turn name ms' w) =
      (outputs : List Message) × (ms' ≡ ms ++ assistant_message turn ∷ outputs)
      × Gives env reply turn
      × Outputs env w1 turn.tool_calls outputs w
      × (all_tool_calls_auto_executable turn.tool_calls names ≡ true)
      × (round ≢ max_automatic_builtin_tool_rounds)

  -- What a run of the loop does, with a bound on its requests.
  pub record Run (left : ℕ) (w : W) (ms : List Message) (r : LoopResult W Err) : Type 0 where
    pub bounded : length r.requests ≤ left
    pub exhausted : r.ending ≡ failed rounds_exceeded → length r.requests ≡ left
    pub dialogue : Dialogue env names w ms r.requests r.ending r.world
