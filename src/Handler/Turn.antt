-- ===== src/Handler/Turn.antt =====
-- `assistantTurn` of internal/handler/assistant_turn.go, the test for automatic execution, and
-- `assignToolCallMetadata`.
use zai_proxy.Base.{ℕ, suc, Bool, true, false, not, ◌&&◌, List, [], ◌∷◌, ◌++◌, if◌then◌else◌}
use zai_proxy.Text.{Bytes, codes, is_empty}
use zai_proxy.Model.Types.{ToolCall}
use zai_proxy.Tools.Resolution.{member}

pub record AssistantTurn : Type 0 where
  pub content : Bytes
  pub reasoning_content : Bytes
  pub tool_calls : List ToolCall

abbrev pub call_name : ToolCall → Bytes
call_name tc = tc.function.name

abbrev pub is_nil {ℓ} : {A : Type ℓ} → List A → Bool
is_nil [] = true
is_nil (_ ∷ _) = false

-- The loop of `allToolCallsAutoExecutable`.
unfoldable pub all_members : List Bytes → List ToolCall → Bool
all_members names [] = true
all_members names (tc ∷ tcs) = member (call_name tc) names && all_members names tcs

unfoldable pub all_tool_calls_auto_executable : List ToolCall → List Bytes → Bool
unfolding all_members member
all_tool_calls_auto_executable calls names = not (is_nil calls) && all_members names calls

-- `assignToolCallMetadata`: the loop from position `i`. `fresh i` is the random part of the
-- identifier that is drawn for position `i`.
unfoldable pub assign_from : (ℕ → Bytes) → Bytes → ℕ → List ToolCall → List ToolCall
assign_from fresh id_prefix i [] = []
assign_from fresh id_prefix i (tc ∷ tcs) =
    record tc {
      id = if is_empty tc.id then id_prefix ++ fresh i else tc.id;
      index = i;
      kind = if is_empty tc.kind then codes "function" else tc.kind;
    }
    ∷ assign_from fresh id_prefix (suc i) tcs

unfoldable pub assign_tool_call_metadata : (ℕ → Bytes) → Bytes → List ToolCall → List ToolCall
unfolding assign_from
assign_tool_call_metadata fresh id_prefix = assign_from fresh id_prefix 0
