-- ===== src/Model/Types.antt =====
-- The structs of internal/model/types.go that the modelled parts read or write.
use zai_proxy.Base.{ℤ, ℕ, List}
use zai_proxy.Text.{Bytes}
use zai_proxy.Model.Json.{Value}

pub record FunctionCall : Type 0 where
  pub name : Bytes
  pub arguments : Bytes

pub record ToolCall : Type 0 where
  pub id : Bytes
  pub kind : Bytes  -- `Type`
  pub function : FunctionCall
  pub index : ℕ

pub record ToolFunction : Type 0 where
  pub name : Bytes
  pub description : Bytes
  pub parameters : Value

pub record Tool : Type 0 where
  pub kind : Bytes  -- `Type`
  pub function : ToolFunction

pub record Message : Type 0 where
  pub role : Bytes
  pub content : Value
  pub tool_call_id : Bytes
  pub tool_calls : List ToolCall

pub record SearchResult : Type 0 where
  pub title : Bytes
  pub url : Bytes
  pub index : ℤ
  pub ref_id : Bytes

pub record ImageSearchResult : Type 0 where
  pub title : Bytes
  pub link : Bytes
  pub thumbnail : Bytes

-- The decoded `UpstreamData`; `edit_content` is what `GetEditContent` makes of the raw field.
pub record UpstreamData : Type 0 where
  pub delta_content : Bytes
  pub edit_content : Bytes
  pub phase : Bytes
