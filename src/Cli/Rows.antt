-- ===== src/Cli/Rows.antt =====
-- What the fetches of cmd/cli/main.go bring into the tables.
use btrfs_snapah_pow.Base.{
  ℕ, ◌<◌, ◌≡◌, refl, String, List, [], ◌∷◌, map, Result, ok, err, length, All, Result-cases, inl,
  inr, arith,
}
use btrfs_snapah_pow.Alerts.{Env}
use btrfs_snapah_pow.Cli.{
  Msg, err_msg, nodes_done, snaps_done, events_done, policies_done, Rows, Page, nodes, snapshots,
  events, policies, nodes_columns, snapshots_columns, events_columns, policies_columns,
}
use btrfs_snapah_pow.Cli.Fetch.{
  Response, Web, or_row, body_of, api_get, node_rows, snapshot_rows, event_rows, policy_rows,
  fetch_nodes, fetch_snapshots, fetch_events, fetch_policies, fetched,
}

-- There is a row, and each has a cell for each of the columns.
abbrev pub Fills : List (String × ℕ) → Rows → Type 0
Fills columns rows = (0 < length rows) × All (λ row. length row ≡ length columns) rows

-- An error, or rows that fill the table that `Update` makes of them.
abbrev pub Fits : Page → Msg → Type 0
Fits page (err_msg e) = Unit
Fits nodes (nodes_done rows) = Fills nodes_columns rows
Fits snapshots (snaps_done rows) = Fills snapshots_columns rows
Fits events (events_done rows) = Fills events_columns rows
Fits policies (policies_done rows) = Fills policies_columns rows
Fits _ _ = ⊥

module _ {B W : Type 0} (env : Env) (web : Web B W) where
  map-All :
      {A : Type 0} (columns : List (String × ℕ)) (f : A → List String)
      → ((a : A) → length (f a) ≡ length columns)
      → (xs : List A) → All (λ row. length row ≡ length columns) (map f xs)
  map-All columns f h [] = tt
  map-All columns f h (x ∷ xs) = (h x, map-All columns f h xs)

  or_row-Fills :
      (columns : List (String × ℕ)) (row : List String) (rows : Rows)
      → length row ≡ length columns
      → All (λ r. length r ≡ length columns) rows
      → Fills columns (or_row row rows)
  or_row-Fills columns row [] e h = (omega arith, (e, tt))
  or_row-Fills columns row (r ∷ rows) e h = (omega arith, h)

  -- Whatever the server answers, a fetch brings an error or at least one row, and each row has as many
  -- cells as the table of its page has columns.
  pub fetched-Fits :
      (page : Page) (token : String) (w : W) → Fits page (fetched env web page token w).1
  unfolding fetched fetch_nodes fetch_snapshots fetch_events fetch_policies node_rows snapshot_rows
      event_rows policy_rows
  fetched-Fits nodes token w = elim (Result-cases (api_get env web token "/api/nodes" w).1) [
    | inl (b, e) ↦ rw e (
        or_row-Fills nodes_columns _ _ refl
          (map-All nodes_columns _ (λ n. refl) (web.decode_nodes b)))
    | inr (m, e) ↦ rw e tt
  ]
  fetched-Fits snapshots token w =
      elim (Result-cases (api_get env web token "/api/snapshots" w).1) [
        | inl (b, e) ↦ rw e (
            or_row-Fills snapshots_columns _ _ refl
              (map-All snapshots_columns _ (λ n. refl) (web.decode_snapshots b)))
        | inr (m, e) ↦ rw e tt
      ]
  fetched-Fits events token w = elim (Result-cases (api_get env web token "/api/events" w).1) [
    | inl (b, e) ↦ rw e (
        or_row-Fills events_columns _ _ refl
          (map-All events_columns _ (λ n. refl) (web.decode_events b)))
    | inr (m, e) ↦ rw e tt
  ]
  fetched-Fits policies token w = elim (Result-cases (api_get env web token "/api/policies" w).1) [
    | inl (b, e) ↦ rw e (
        or_row-Fills policies_columns _ _ refl
          (map-All policies_columns _ (λ n. refl) (web.decode_policies b)))
    | inr (m, e) ↦ rw e tt
  ]

  -- the same answer with another status
  abbrev recoded : ℕ → Result (Response B) → Result (Response B)
  recoded code (ok resp) = ok (record resp { status_code = code })
  recoded code (err e) = err e

  -- a web whose every answer to a GET has one status
  abbrev pub answering : ℕ → Web B W
  answering code = record web {
    send_get =
        λ url header w. let (w', resp) = web.send_get url header w in (w', recoded code resp);
  }

  body_of-recoded :
      (code : ℕ) (resp : Result (Response B))
      → body_of env (answering code) (recoded code resp) ≡ body_of env web resp
  unfolding body_of
  body_of-recoded code (ok resp) = refl
  body_of-recoded code (err e) = refl

  api_get-answering :
      (code : ℕ) (token path : String) (w : W)
      → api_get env (answering code) token path w ≡ api_get env web token path w
  unfolding api_get
  api_get-answering code token path w = rw (body_of-recoded code _) refl

  -- A fetch does not see the status of the answer: were it another one, an error's say, the rows would
  -- be the same.
  pub fetched-answering :
      (code : ℕ) (page : Page) (token : String) (w : W)
      → fetched env (answering code) page token w ≡ fetched env web page token w
  unfolding fetched fetch_nodes fetch_snapshots fetch_events fetch_policies node_rows snapshot_rows
      event_rows policy_rows
  fetched-answering code nodes token w = rw (api_get-answering code token "/api/nodes" w) refl
  fetched-answering code snapshots token w =
      rw (api_get-answering code token "/api/snapshots" w) refl
  fetched-answering code events token w = rw (api_get-answering code token "/api/events" w) refl
  fetched-answering code policies token w = rw (api_get-answering code token "/api/policies" w) refl
