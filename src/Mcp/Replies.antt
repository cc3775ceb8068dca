-- ===== src/Mcp/Replies.antt =====
-- What the stdio server answers.
use my_symphony.Base.{
  ◌∙◌, ◌++◌, map, inr, inl, if_elim, ap, Result-cases, Option-cases, Bool-cases, All-append, All,
  refl, ◌≡◌, ◌∷◌, ◌||◌, ◌&&◌, true, some, not, none, if◌then◌else◌, false, arith, [], Option, List,
  Bool,
}
use my_symphony.Go.Utf8.{text_eq_iff, ascii, text_eq, is_blank, Text}
use my_symphony.LinearGraphql.Tool.{execute, parse_input, Input, Tool, Http}
use my_symphony.Mcp.{
  serve_lines, call_tool, respond, respond_call, handle_rpc, RpcResponse, RpcRequest, Json,
}
use my_symphony.LinearGraphql.Posts.{execute_lem, IsPostable}

-- Whether a method is one of the server's.
abbrev pub is_served : Text → Bool
is_served method =
    text_eq method (ascii "initialize")
    || text_eq method (ascii "tools/list")
    || text_eq method (ascii "tools/call")

-- Whether a request is answered: its method is served, or is unknown and comes with an identifier.
abbrev pub expects : RpcRequest → Bool
expects req =
    is_served req.method
    || (not (text_eq req.method (ascii "notifications/initialized")) && not (is_blank req.id))

abbrev ids_of : Option RpcResponse → List Text
ids_of none = []
ids_of (some r) = r.id ∷ []

-- A method is one text.
one_method :
    (method a b : Text) → text_eq a b ≡ false → text_eq method a ≡ true → text_eq method b ≡ false
one_method method a b h k = rw ((text_eq_iff method a).0 k) h

handle_rpc-ids :
    (json : Json) (http : Http) (tool : Tool) (req : RpcRequest)
    → ids_of (handle_rpc json http tool req).1 ≡ (if expects req then req.id ∷ [] else [])
unfolding handle_rpc respond respond_call text_eq
handle_rpc-ids json http tool req =
    let one = one_method req.method (ascii "notifications/initialized") (ascii "tools/call") refl in
    let other =
      one_method req.method (ascii "notifications/initialized") (ascii "tools/list") refl in
    ground (arith, one, other)

-- The requests among the lines that main scans.
abbrev pub requests : Json → List Text → List RpcRequest
requests json [] = []
requests json (line ∷ rest) =
    if is_blank line then requests json rest else elim (json.decode_request line) [
      | none ↦ requests json rest
      | some req ↦ req ∷ requests json rest
    ]

-- The identifiers of the requests that are answered.
abbrev pub answered_ids : List RpcRequest → List Text
answered_ids [] = []
answered_ids (req ∷ rest) = if expects req then req.id ∷ answered_ids rest else answered_ids rest

execute-IsPostable :
    (http : Http) (tool : Tool) (input : Input) → All (IsPostable tool) (execute http tool input).0
execute-IsPostable http tool input = elim (execute_lem http tool input) [
  | inl (posted, ok_input) ↦ rw posted (ok_input, tt)
  | inr (none_posted, _, _) ↦ rw none_posted tt
]

call_tool-IsPostable :
    (json : Json) (http : Http) (tool : Tool) (params : Text)
    → All (IsPostable tool) (call_tool json http tool params).0
unfolding call_tool
call_tool-IsPostable json http tool params = elim (Result-cases (json.decode_params params)) [
  | inr (x, e) ↦ rw (e, call_tool) tt
  | inl (p, e) ↦ elim (Bool-cases (text_eq p.name (ascii "linear_graphql"))) [
    | inr f ↦ rw (e, call_tool, f) tt
    | inl f ↦ elim (Result-cases (parse_input json.inputs p.arguments)) [
      | inr (x, g) ↦ rw (e, call_tool, f, g) tt
      | inl (input, g) ↦ rw (e, call_tool, f, g) (execute-IsPostable http tool input)
    ]
  ]
]

handle_rpc-IsPostable :
    (json : Json) (http : Http) (tool : Tool) (req : RpcRequest)
    → All (IsPostable tool) (handle_rpc json http tool req).0
unfolding handle_rpc respond_call
handle_rpc-IsPostable json http tool req =
    let P : List Input × Option RpcResponse → Type 0 = (λ x. All (IsPostable tool) x.0) in
    if_elim P (text_eq req.method (ascii "initialize")) (λ _. tt)
      (λ _.
        if_elim P (text_eq req.method (ascii "notifications/initialized")) (λ _. tt)
          (λ _.
            if_elim P (text_eq req.method (ascii "tools/list")) (λ _. tt)
              (λ _.
                if_elim P (text_eq req.method (ascii "tools/call"))
                  (λ _. call_tool-IsPostable json http tool req.params)
                  (λ _. if_elim P (is_blank req.id) (λ _. tt) (λ _. tt)))))

-- What one request adds to the responses.
prepend-ids :
    (o : Option RpcResponse) (written : List RpcResponse)
    → map (λ r. r.id) (elim o [ none ↦ written | some r ↦ r ∷ written ])
      ≡ ids_of o ++ map (λ r. r.id) written
prepend-ids none written = refl
prepend-ids (some r) written = refl

if-append :
    (b : Bool) (x : Text) (ys : List Text)
    → (if b then x ∷ [] else []) ++ ys ≡ (if b then x ∷ ys else ys)
if-append true x ys = refl
if-append false x ys = refl

-- The server writes one response for each line that decodes to a request for a served method, whether
-- or not it has an identifier, or for an unknown method with an identifier, in the order of the lines
-- and under the identifier of the request, and none for other lines; it posts nothing but inputs in
-- which countOperations counts one operation, and these only with a key.
pub serve_lines_lem :
    (json : Json) (http : Http) (tool : Tool) (lines : List Text)
    → (map (λ r. r.id) (serve_lines json http tool lines).1 ≡ answered_ids (requests json lines))
      × All (IsPostable tool) (serve_lines json http tool lines).0
unfolding serve_lines
serve_lines_lem json http tool [] = (refl, tt)
serve_lines_lem json http tool (line ∷ rest) =
    let (ids, posts) = serve_lines_lem json http tool rest in
    elim (Bool-cases (is_blank line)) [
      | inl blank ↦ rw blank (ids, posts)
      | inr full ↦ elim (Option-cases (json.decode_request line)) [
        | inl e ↦ rw (full, e, serve_lines) (ids, posts)
        | inr (req, e) ↦
            let written = (serve_lines json http tool rest).1 in
            let response = (handle_rpc json http tool req).1 in
            rw (full, e, serve_lines)
              (
                prepend-ids response written
                    ∙ ap (λ xs. xs ++ map (λ r. r.id) written) (handle_rpc-ids json http tool req)
                    ∙ ap (λ ys. (if expects req then req.id ∷ [] else []) ++ ys) ids
                    ∙ if-append (expects req) req.id (answered_ids (requests json rest)),
                All-append (IsPostable tool) (handle_rpc json http tool req).0
                    (serve_lines json http tool rest).0 (handle_rpc-IsPostable json http tool req)
                    posts,
              )
      ]
    ]
