-- ===== src/Mcp.antt =====
-- cmd/symphony-lineargql-mcp/main.go: the stdio server of the tool. encoding/json is an argument: it
-- decodes a line to a request, the parameters of a call and the input of the tool. The text of a
-- result is told by the constructor that stands for it.
pub mod Replies
use my_symphony.Go.Utf8.{text_eq, is_blank, Text, ascii}
use my_symphony.LinearGraphql.Tool.{
  execute, parse_input, ToolResult, Tool, InputDecoder, Input, Http,
}
use my_symphony.Base.{
  ◌∷◌, ◌++◌, ℤ, true, some, ok, not, none, negsuc, if◌then◌else◌, err, [], Result, Option, List,
  Bool,
}

-- rpcRequest; a raw message is its bytes, an absent one is empty.
pub record RpcRequest : Type 0 where
  pub id : Text
  pub method : Text
  pub params : Text

pub record CallParams : Type 0 where
  pub name : Text
  pub arguments : Text

pub record Json : Type 0 where
  pub decode_request : Text → Option RpcRequest
  pub decode_params : Text → Result Text CallParams
  pub inputs : InputDecoder

-- The text of a tool's result.
pub data Content : Type 0 where
  invalid_params : (message : Text) → Content
  unsupported_tool : (name : Text) → Content
  invalid_arguments : (message : Text) → Content
  executed : ToolResult → Content

-- The result of a response: what initialize, tools/list and tools/call are answered.
pub data RpcResult : Type 0 where
  server_info : (protocol_version : Text) → RpcResult
  tool_list : (names : List Text) → RpcResult
  tool_result : (text : Content) (is_error : Bool) → RpcResult

-- rpcResponse.
pub record RpcResponse : Type 0 where
  pub id : Text
  pub result : Option RpcResult
  pub error : Option (ℤ × Text)

abbrev pub protocol_version : Text
protocol_version = ascii "2024-11-05"

abbrev pub method_not_found : ℤ
method_not_found = negsuc 32_600

-- callTool: what the tool posts, the text and whether it is an error.
unfoldable pub call_tool : Json → Http → Tool → Text → List Input × RpcResult
call_tool json http tool params = elim (json.decode_params params) [
  | err e ↦ ([], tool_result (invalid_params e) true)
  | ok p ↦
      if not (text_eq p.name (ascii "linear_graphql"))
      then ([], tool_result (unsupported_tool p.name) true)
      else elim (parse_input json.inputs p.arguments) [
        | err e ↦ ([], tool_result (invalid_arguments e) true)
        | ok input ↦
            let (posted, res) = execute http tool input in
            (posted, tool_result (executed res) (not res.success))
      ]
]

unfoldable pub respond : Text → RpcResult → Option RpcResponse
respond id result = some (record { id = id; result = some result; error = none })

unfoldable pub respond_call : Text → List Input × RpcResult → List Input × Option RpcResponse
unfolding respond
respond_call id (posted, result) = (posted, respond id result)

-- handle: what the tool posts, and the response unless the request is a notification.
unfoldable pub handle_rpc : Json → Http → Tool → RpcRequest → List Input × Option RpcResponse
unfolding respond respond_call
handle_rpc json http tool req =
    if text_eq req.method (ascii "initialize")
    then ([], respond req.id (server_info protocol_version))
    else if text_eq req.method (ascii "notifications/initialized")
    then ([], none)
    else if text_eq req.method (ascii "tools/list")
    then ([], respond req.id (tool_list (ascii "linear_graphql" ∷ [])))
    else if text_eq req.method (ascii "tools/call")
    then respond_call req.id (call_tool json http tool req.params)
    else if is_blank req.id
    then ([], none)
    else (
      [],
      some (record {
        id = req.id;
        result = none;
        error = some (method_not_found, ascii "method not found: " ++ req.method);
      }),
    )

-- The loop of main over the lines that it scans: what is posted, and what is written.
unfoldable pub serve_lines : Json → Http → Tool → List Text → List Input × List RpcResponse
serve_lines json http tool [] = ([], [])
serve_lines json http tool (line ∷ rest) =
    let (posted, written) = serve_lines json http tool rest in
    if is_blank line then (posted, written) else elim (json.decode_request line) [
      | none ↦ (posted, written)
      | some req ↦
          let (now, response) = handle_rpc json http tool req in
          (now ++ posted, elim response [ none ↦ written | some r ↦ r ∷ written ])
    ]
