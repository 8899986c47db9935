-- ===== src/Alerts/Watchdog/Alternation.antt =====
-- The alerts of internal/alerts/watchdog.go mark changes: for each node the news that it is down
-- and the news that it is back take turns, over any number of checks.
use btrfs_snapah_pow.Base.{
  ◌≡◌, refl, ap, sym, ◌∙◌, inl, inr, String, ◌==◌, Bool, true, false, not, ◌&&◌, Option, none, some,
  List, [], ◌∷◌, insert, lookup-insert, Result, ok, err, eq_iff, is_empty, arith, if◌then◌else◌,
  Bool-cases, Option-cases,
}
use mathlib.Core.List
use btrfs_snapah_pow.Storage.Models.{Node}
use btrfs_snapah_pow.Storage.Gorm.{Gorm}
use btrfs_snapah_pow.Storage.Db.{list_nodes, update_node_status}
use btrfs_snapah_pow.Alerts.Message.{Alert}
use btrfs_snapah_pow.Alerts.Watchdog.{
  Clock, Watch, alert_offline, alert_recovered, is_offline, prev_status, check_node, check_nodes,
  checked, check, watch,
}

-- Reads the alerts of one node: is the node known to be down before, and after them? `none` where
-- an alert does not follow from what was known.
abbrev pub follow_one : String → Bool → Alert → Option Bool
follow_one id down a =
    if a.node_id == id
    then (if a.level == "critical" && not down
        then some true
        else if a.level == "info" && down
        then some false
        else none)
    else some down

abbrev pub follow_next : Option Bool → (Bool → Option Bool) → Option Bool
follow_next none k = none
follow_next (some down) k = k down

abbrev pub follow : String → Bool → List Alert → Option Bool
follow id down [] = some down
follow id down (a ∷ sent) = follow_next (follow_one id down a) (λ d. follow id d sent)

follow-append :
    (id : String) (down mid : Bool) (sent more : List Alert)
    → follow id down sent ≡ some mid
    → follow id down (List.◌++◌ sent more) ≡ follow id mid more
follow-append id down mid [] more h = ground arith
follow-append id down mid (a ∷ sent) more h = elim (Option-cases (follow_one id down a)) [
  | inl bad ↦ let h' : none ≡ some mid = rw bad at h in cc
  | inr (d, good) ↦
      let h' : follow id d sent ≡ some mid = rw good at h in
      rw good (follow-append id d mid sent more h')
]

module _ (g : Gorm) where
  -- the node is known to be down
  abbrev pub known_down : String → Watch g → Bool
  known_down id w = prev_status g id w == "offline"

  known_down-insert :
      (id key status : String) (w : Watch g) (db : g.Conn)
      → known_down id (record { last_status = insert key status w.last_status; db = db })
        ≡ (if key == id then status == "offline" else known_down id w)
  known_down-insert id key status w db =
      rw (lookup-insert key id status w.last_status)
        (elim (Bool-cases (key == id)) [ inl same ↦ rw same refl | inr apart ↦ rw apart refl ])

  known_down-same :
      (id key : String) (w : Watch g) → (key == id) ≡ true → known_down key w ≡ known_down id w
  known_down-same id key w h = ap (λ k. known_down k w) ((eq_iff key id).0 h)

  -- an alert that the node is down, and one that it is back, with what is recorded
  follow_down :
      (id : String) (a : Alert) (w : Watch g) (db : g.Conn)
      → known_down a.node_id w ≡ false
      → a.level ≡ "critical"
      → follow id (known_down id w) (a ∷ [])
        ≡ some (
            known_down id
              (record { last_status = insert a.node_id "offline" w.last_status; db = db }))
  follow_down id a w db k l =
      rw (known_down-insert id a.node_id "offline" w db) (elim (Bool-cases (a.node_id == id)) [
        | inl same ↦
            let k' : known_down id w ≡ false = sym (known_down-same id a.node_id w same) ∙ k in
            rw (same, k', l) refl
        | inr apart ↦ rw apart refl
      ])

  follow_back :
      (id : String) (a : Alert) (w : Watch g) (db : g.Conn)
      → known_down a.node_id w ≡ true
      → a.level ≡ "info"
      → follow id (known_down id w) (a ∷ [])
        ≡ some (
            known_down id
              (record { last_status = insert a.node_id "online" w.last_status; db = db }))
  follow_back id a w db k l =
      rw (known_down-insert id a.node_id "online" w db) (elim (Bool-cases (a.node_id == id)) [
        | inl same ↦
            let k' : known_down id w ≡ true = sym (known_down-same id a.node_id w same) ∙ k in
            rw (same, k', l) refl
        | inr apart ↦ rw apart refl
      ])

  follow_first :
      (id key : String) (w : Watch g) (db : g.Conn)
      → known_down key w ≡ false
      → known_down id w
        ≡ known_down id (record { last_status = insert key "online" w.last_status; db = db })
  follow_first id key w db k =
      rw (known_down-insert id key "online" w db) (elim (Bool-cases (key == id)) [
        | inl same ↦ rw same (sym (known_down-same id key w same) ∙ k)
        | inr apart ↦ rw apart refl
      ])

  follow-check_node :
      (id : String) (t : Clock) (n : Node) (w : Watch g)
      → follow id (known_down id w) (check_node g t n w).1
        ≡ some (known_down id (check_node g t n w).0)
  unfolding check_node
  follow-check_node id t n w = elim (Bool-cases (is_offline t n)) [
    | inl off ↦ elim (Bool-cases (known_down n.id w)) [
      | inl down ↦ rw (off, down) refl
      | inr up ↦
          rw (off, up)
            (follow_down id (alert_offline n) w (update_node_status g t.now n.id "offline" w.db).0
              up refl)
    ]
    | inr on ↦ elim (Bool-cases (known_down n.id w)) [
      | inl down ↦
          rw (on, down)
            (follow_back id (alert_recovered n) w (update_node_status g t.now n.id "online" w.db).0
              down refl)
      | inr up ↦ elim (Bool-cases (is_empty (prev_status g n.id w))) [
        | inl first ↦ rw (on, up, first) (ap some (follow_first id n.id w w.db up))
        | inr known ↦ rw (on, up, known) refl
      ]
    ]
  ]

  -- over the nodes of one check
  follow-check_nodes :
      (id : String) (t : Clock) (ns : List Node) (w : Watch g)
      → follow id (known_down id w) (check_nodes g t ns w).1
        ≡ some (known_down id (check_nodes g t ns w).0)
  unfolding check_nodes
  follow-check_nodes id t [] w = refl
  follow-check_nodes id t (n ∷ ns) w =
      let w' = (check_node g t n w).0 in
      follow-append id (known_down id w) (known_down id w') (check_node g t n w).1
        (check_nodes g t ns w').1 (follow-check_node id t n w)
      ∙ follow-check_nodes id t ns w'

  follow-checked :
      (id : String) (t : Clock) (w : Watch g) (r : Result (List Node))
      → follow id (known_down id w) (checked g t w r).1 ≡ some (known_down id (checked g t w r).0)
  unfolding checked
  follow-checked id t w (err e) = refl
  follow-checked id t w (ok ns) = follow-check_nodes id t ns w

  -- Over any run, whatever happens to the database between the checks, the alerts about a node take
  -- turns: "critical" when it is not known to be down, "info" when it is, and no other; and the
  -- last of them is what the watchdog then knows of the node.
  pub follow-watch :
      (id : String) (rounds : List (Clock × g.Conn)) (w : Watch g)
      → follow id (known_down id w) (watch g rounds w).1 ≡ some (known_down id (watch g rounds w).0)
  unfolding watch check
  follow-watch id [] w = refl
  follow-watch id ((t, db) ∷ rounds) w =
      let before : Watch g = record w { db = db } in
      let after = (check g t before).0 in
      follow-append id (known_down id before) (known_down id after) (check g t before).1
        (watch g rounds after).1 (follow-checked id t before (list_nodes g db))
      ∙ follow-watch id rounds after
