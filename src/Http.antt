-- ===== src/Http.antt =====
-- What the handlers use of Go's `net/http` and `encoding/json`: a request, the response writer
-- with its header rules, and the handler type. The server is a state `S` that a handler threads.
use btrfs_snapah_pow.Base.{
  ℕ, String, Bool, Option, none, some, List, [], ◌∷◌, GoMap, lookup, insert, ◌==◌, if◌then◌else◌,
}
use mathlib.Core.List

-- A value given to the JSON encoder. `text` is a body that is written as it stands.
mutual
  pub data Json : Type 0 where
    null : Json
    bool : Bool → Json
    num : ℕ → Json
    str : String → Json
    arr : Items → Json
    obj : Fields → Json
    text : String → Json

  pub data Items : Type 0 where
    nil : Items
    cons : Json → Items → Items

  pub data Fields : Type 0 where
    end : Fields
    field : String → Json → Fields → Fields

-- `body` is the body as it is sent; the handlers decode it.
pub record Request (B : Type 0) : Type 0 where
  pub method : String
  pub remote_addr : String
  pub header : GoMap String
  pub query : GoMap String
  pub body : B

abbrev pub or_empty : Option String → String
or_empty none = ""
or_empty (some v) = v

-- `r.Header.Get(k)`: empty where the header is missing.
abbrev pub get : String → GoMap String → String
get k m = or_empty (lookup k m)

-- `r.Header.Set(k, v)`
abbrev pub set_header : {B : Type 0} → String → String → Request B → Request B
set_header k v r = record r { header = insert k v r.header }

-- `http.ResponseWriter`: the header map that can still be changed, the status and headers once
-- they are sent, and the body.
pub record Writer : Type 0 where
  pub pending : GoMap String
  pub sent : Option (ℕ × GoMap String)
  pub body : List Json

abbrev pub fresh : Writer
fresh = record { pending = []; sent = none; body = [] }

-- `w.Header().Set(k, v)`: no effect on headers that are sent already.
abbrev pub set : String → String → Writer → Writer
set k v w = record w { pending = insert k v w.pending }

abbrev sent_or : Option (ℕ × GoMap String) → ℕ × GoMap String → ℕ × GoMap String
sent_or none s = s
sent_or (some s) _ = s

-- `w.WriteHeader(code)`: only the first call counts.
abbrev pub write_header : ℕ → Writer → Writer
write_header code w = record w { sent = some (sent_or w.sent (code, w.pending)) }

-- `w.Write(b)`: sends status 200 if none is sent.
abbrev pub write : Json → Writer → Writer
write b w = record w {
  sent = some (sent_or w.sent (200, w.pending));
  body = List.◌++◌ w.body (b ∷ []);
}

-- The status that the client sees: 200 where the handler sent none.
abbrev pub status : Writer → ℕ
status w = (sent_or w.sent (200, w.pending)).0

-- The type that `net/http` finds for a body whose header names none: it looks at the first bytes. All
-- bodies here begin like JSON or a word, and are taken for text.
abbrev sniffed : List Json → Option String
sniffed [] = none
sniffed (b ∷ bs) = some "text/plain; charset=utf-8"

abbrev or_sniffed : List Json → Option String → Option String
or_sniffed body none = sniffed body
or_sniffed body (some v) = some v

-- The value of a header that the client sees.
abbrev pub sent_header : String → Writer → Option String
sent_header k w =
    let v = lookup k (sent_or w.sent (200, w.pending)).1 in
    if k == "Content-Type" then or_sniffed w.body v else v

-- `http.HandlerFunc`
abbrev pub Handler : Type 0 → Type 0 → Type 0
Handler B S = Writer → Request B → S → Writer × S
