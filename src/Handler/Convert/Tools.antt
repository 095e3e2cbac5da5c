-- ===== src/Handler/Convert/Tools.antt =====
-- The tools and the choice of a tool in `convertAnthropicToInternal` of internal/handler/anthropic.go,
-- and the whole conversion.
use zai_proxy.Text.{is_empty, has_prefix, codes, bytes_eq, Bytes}
use zai_proxy.Model.Types.{Message, Tool}
use zai_proxy.Handler.Convert.{RequestBlock, convert_messages, AnthropicMessage, system_messages}
use zai_proxy.Model.Json.{
  as_string, as_object, member, Value, Items, Fields, null, str, arr, obj, nil, cons, end, field,
}
use zai_proxy.Base.{Bool, true, false, not, Option, none, some, List, [], ◌∷◌, ◌++◌, if◌then◌else◌}

pub record AnthropicTool : Type 0 where
  pub kind : Bytes  -- `Type`
  pub name : Bytes
  pub description : Bytes
  pub input_schema : Value  -- `null` if it is missing

pub record AnthropicRequest : Type 0 where
  pub model : Bytes
  pub system : Value
  pub messages : List AnthropicMessage
  pub tools : List AnthropicTool
  pub tool_choice : Value
  pub stream : Bool
  pub thinking : Option Bytes  -- the `Type`

abbrev pub is_bash : AnthropicTool → Bool
is_bash t = has_prefix (codes "bash_") t.kind

abbrev pub is_text_editor : AnthropicTool → Bool
is_text_editor t = has_prefix (codes "text_editor_") t.kind

unfoldable pub anthropic_tool_name : AnthropicTool → Bytes
unfolding has_prefix
anthropic_tool_name t =
    if not (is_empty t.name)
    then t.name
    else if is_bash t
    then codes "bash"
    else if is_text_editor t
    then codes "str_replace_based_edit_tool"
    else []

unfoldable pub anthropic_tool_description : AnthropicTool → Bytes
unfolding has_prefix
anthropic_tool_description t =
    if not (is_empty t.description)
    then t.description
    else if is_bash t
    then codes
        "Execute shell commands in a persistent bash session. Use input.command to run a command or input.restart to restart the session."
    else if is_text_editor t
    then codes
        "View and edit text files. Supported commands include view, str_replace, create, insert, and undo_edit, all passed via input.command."
    else []

abbrev pub is_null : Value → Bool
is_null null = true
is_null _ = false

-- A property of a schema: its type, what stands between, and its description.
abbrev pub property : Bytes → (Fields → Fields) → Bytes → Value
property kind between description =
    obj (
      field (codes "type") (str kind) (between (field (codes "description") (str description) end)))

abbrev pub simple : Bytes → Bytes → Value
simple kind description = property kind (λ fs. fs) description

abbrev pub bash_schema : Value
bash_schema = obj (
    field (codes "type") (str (codes "object")) (
      field (codes "properties")
        (obj (
          field (codes "command")
            (simple (codes "string") (codes "The bash command to run in the persistent session."))
            (field (codes "restart")
              (simple (codes "boolean")
                (codes "Set to true to restart the bash session instead of running a command."))
              end)))
        end))

abbrev pub editor_commands : Items
editor_commands = cons (str (codes "view")) (
    cons (str (codes "str_replace")) (
      cons (str (codes "create"))
        (cons (str (codes "insert")) (cons (str (codes "undo_edit")) nil))))

abbrev pub editor_properties : Fields
editor_properties =
    field (codes "command")
      (property (codes "string") (λ fs. field (codes "enum") (arr editor_commands) fs)
        (codes "Text editor command to execute."))
      (field (codes "path")
        (simple (codes "string") (codes "Path to the file or directory being read or edited."))
        (field (codes "view_range")
          (property (codes "array")
            (λ fs.
              field (codes "items") (obj (field (codes "type") (str (codes "integer")) end)) fs)
            (codes "Optional start and end line numbers for the view command."))
          (field (codes "old_str")
            (simple (codes "string") (codes "Exact text to replace when using str_replace."))
            (field (codes "new_str")
              (simple (codes "string") (codes "Replacement text for str_replace."))
              (field (codes "file_text")
                (simple (codes "string") (codes "Content to write when using the create command."))
                (field (codes "insert_line")
                  (simple (codes "integer")
                    (codes "Line number after which to insert text for the insert command."))
                  (field (codes "insert_text")
                    (simple (codes "string") (codes "Text to insert for the insert command."))
                    end)))))))

abbrev pub editor_schema : Value
editor_schema = obj (
    field (codes "type") (str (codes "object")) (
      field (codes "properties") (obj editor_properties) (
        field (codes "required")
          (arr (cons (str (codes "command")) (cons (str (codes "path")) nil))) end)))

unfoldable pub anthropic_tool_input_schema : AnthropicTool → Value
unfolding has_prefix
anthropic_tool_input_schema t =
    if not (is_null t.input_schema)
    then t.input_schema
    else if is_bash t
    then bash_schema
    else if is_text_editor t
    then editor_schema
    else null

unfoldable pub convert_tools : List AnthropicTool → List Tool
unfolding anthropic_tool_name anthropic_tool_description anthropic_tool_input_schema
convert_tools [] = []
convert_tools (t ∷ ts) =
    record {
      kind = codes "function";
      function = record {
        name = anthropic_tool_name t;
        description = anthropic_tool_description t;
        parameters = anthropic_tool_input_schema t;
      };
    }
    ∷ convert_tools ts

-- The function of that name, if the choice has one.
unfoldable pub chosen_function : Option Bytes → Value
chosen_function none = null
chosen_function (some name) = obj (
    field (codes "type") (str (codes "function"))
      (field (codes "function") (obj (field (codes "name") (str name) end)) end))

-- A type that is no string is the empty one.
unfoldable pub choice_of : Bytes → Fields → Value
unfolding bytes_eq member chosen_function
choice_of kind fields =
    if bytes_eq kind (codes "auto")
    then str (codes "auto")
    else if bytes_eq kind (codes "any")
    then str (codes "required")
    else if bytes_eq kind (codes "none")
    then str (codes "none")
    else if bytes_eq kind (codes "tool")
    then chosen_function (as_string (member (codes "name") fields))
    else null

unfoldable pub convert_tool_choice : Value → Value
unfolding choice_of member
convert_tool_choice choice = elim (as_object choice) [
  | none ↦ null
  | some fields ↦ elim (as_string (member (codes "type") fields)) [
    | none ↦ choice_of [] fields
    | some kind ↦ choice_of kind fields
  ]
]

-- The messages, the tools and the choice.
unfoldable pub convert_anthropic_to_internal :
    (Value → Option RequestBlock)
    → (Value → Option Bytes)
    → AnthropicRequest
    → List Message × List Tool × Value
unfolding system_messages convert_messages convert_tools convert_tool_choice
convert_anthropic_to_internal read_block marshal req = (
  system_messages req.system ++ convert_messages read_block marshal req.messages,
  convert_tools req.tools,
  convert_tool_choice req.tool_choice,
)
