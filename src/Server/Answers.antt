-- ===== src/Server/Answers.antt =====
-- `jsonResp`, `httpErr` and `forbidden` of cmd/server/main.go.
use btrfs_snapah_pow.Base.{ℕ, String, List, [], ◌∷◌, length}
use btrfs_snapah_pow.Http.{Json, Items, nil, cons, end, field, Writer, set, write, write_header}

abbrev pub json_resp : Json → Writer → Writer
json_resp v w = write v (set "Content-Type" "application/json" w)

abbrev pub error_body : String → Json
error_body message = Json.obj (field "error" (Json.str message) end)

abbrev pub http_err : String → ℕ → Writer → Writer
http_err message code w =
    write (error_body message) (write_header code (set "Content-Type" "application/json" w))

abbrev pub forbidden : String → Writer → Writer
forbidden message w = http_err message 403 w

-- a slice as a JSON array
abbrev pub items : {A : Type 0} → (A → Json) → List A → Items
items f [] = nil
items f (x ∷ xs) = cons (f x) (items f xs)

-- `map[string]interface{}{"count": len(xs), key: xs}`
abbrev pub counted : {A : Type 0} → String → (A → Json) → List A → Json
counted key f xs =
    Json.obj (field "count" (Json.num (length xs)) (field key (Json.arr (items f xs)) end))
