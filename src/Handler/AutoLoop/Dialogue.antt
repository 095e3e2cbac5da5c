-- ===== src/Handler/AutoLoop/Dialogue.antt =====
-- What the loop does to the world: each request repeats the one before it, and adds the model's turn
-- and the outputs of its calls.
use zai_proxy.Base.{◌≤◌, ◌≡◌, ◌≢◌, ◌⊎◌, refl, true, false, List, [], ◌∷◌, ◌++◌, length}
use zai_proxy.Text.{Bytes}
use zai_proxy.Model.Types.{Message, ToolCall}
use zai_proxy.Handler.Turn.{AssistantTurn, call_name, is_nil, all_tool_calls_auto_executable}
use zai_proxy.Handler.AutoLoop.{
  Env, Reply, refused, replied, turned, broken, crashed, Ending, returned, failed, panicked,
  request_failed, upstream_status, collect_failed, rounds_exceeded, unexpected_terminal_state,
  status_ok, assistant_message, tool_message, execute_calls,
}

module _ {W Body Err : Type 0} (env : Env W Body Err) where
  -- The calls run one after the other, each by its name and arguments in the world that the one
  -- before left, and answered under its identifier.
  pub data Outputs : W → List ToolCall → List Message → W → Type 0 where
    no_calls : {w : W} → Outputs w [] [] w
    run_call :
        {w w1 w2 : W} {tcs : List ToolCall} {ms : List Message} (tc : ToolCall) (output : Bytes)
        → env.execute_builtin_tool w (call_name tc) tc.function.arguments ≡ (output, w1)
        → Outputs w1 tcs ms w2
        → Outputs w (tc ∷ tcs) (tool_message tc output ∷ ms) w2

  -- A reply with the status 200, of which a turn is collected.
  abbrev pub Gives : Reply Body Err → AssistantTurn → Type 0
  Gives reply turn =
      (name : Bytes) × (body : Body) × (reply ≡ replied name status_ok body)
      × (env.collect_assistant_turn body ≡ turned turn)

  module _ (names : List Bytes) where
    -- The endings that a reply may lead to.
    abbrev pub Ends : Reply Body Err → Ending Err → Type 0
    Ends reply (returned turn) =
        Gives reply turn
        × ((is_nil names ≡ true) ⊎ (all_tool_calls_auto_executable turn.tool_calls names ≡ false))
    Ends reply (failed (request_failed e)) = (name : Bytes) × (reply ≡ refused name e)
    Ends reply (failed (upstream_status code text)) =
        (name : Bytes) × (body : Body) × (reply ≡ replied name code body)
        × (code ≢ status_ok)
        × (length text ≤ 500)
    Ends reply (failed (collect_failed e)) =
        (name : Bytes) × (body : Body) × (reply ≡ replied name status_ok body)
        × (env.collect_assistant_turn body ≡ broken e)
    Ends reply (failed rounds_exceeded) =
        (turn : AssistantTurn) × Gives reply turn
        × (all_tool_calls_auto_executable turn.tool_calls names ≡ true)
    Ends reply (failed unexpected_terminal_state) = ⊥
    Ends reply panicked =
        (name : Bytes) × (body : Body) × (reply ≡ replied name status_ok body)
        × (env.collect_assistant_turn body ≡ crashed)

    -- A run from a world and the messages of its first request, with all requests, the ending and
    -- the world behind it: what is sent is the recorded request, and a turn leads to a further
    -- request only if the proxy may run all its calls.
    pub data Dialogue : W → List Message → List (List Message) → Ending Err → W → Type 0 where
      last :
          {w w1 : W} {ms : List Message} {ending : Ending Err} (reply : Reply Body Err)
          → env.make_upstream_request w ms ≡ (reply, w1)
          → Ends reply ending
          → Dialogue w ms (ms ∷ []) ending w1
      next :
          {w w1 w2 w3 : W} {ms : List Message} {rs : List (List Message)} {ending : Ending Err}
          (reply : Reply Body Err) (turn : AssistantTurn) (outputs : List Message)
          → env.make_upstream_request w ms ≡ (reply, w1)
          → Gives reply turn
          → all_tool_calls_auto_executable turn.tool_calls names ≡ true
          → Outputs w1 turn.tool_calls outputs w2
          → Dialogue w2 (ms ++ assistant_message turn ∷ outputs) rs ending w3
          → Dialogue w ms (ms ∷ rs) ending w3

    pub execute_calls-Outputs :
        (w : W) (tcs : List ToolCall)
        → Outputs w tcs (execute_calls env names w tcs).0 (execute_calls env names w tcs).1
    unfolding execute_calls
    execute_calls-Outputs w [] = no_calls
    execute_calls-Outputs w (tc ∷ tcs) =
        run_call tc (env.execute_builtin_tool w (call_name tc) tc.function.arguments).0 refl (
          execute_calls-Outputs (env.execute_builtin_tool w (call_name tc) tc.function.arguments).1
            tcs)
