-- ===== src/Cli/Views.antt =====
-- The rendering of cmd/cli/main.go. The styles and the views of the widgets are the parameter
-- `Styles`.
use btrfs_snapah_pow.Base.{
  ℕ, ◌+◌, String, ◌++◌, not, Option, some, List, [], ◌∷◌, nat_eq, if◌then◌else◌, is_empty,
}
use mathlib.Core.Option
use btrfs_snapah_pow.Cli.{
  Screen, screen_login, screen_menu, screen_nodes, screen_snapshots, screen_events, screen_policies,
  Model, input_at, ◌>>=◌,
}

pub record Styles (I T : Type 0) : Type 0 where
  pub title : String → String
  pub bar : String → String
  pub selected : String → String
  pub muted : String → String
  pub success : String → String
  pub error : String → String
  pub box : String → String
  pub view_input : I → String
  pub view_table : T → String

abbrev pub menu_items : List String
menu_items = "🖥\u{fe0f}  Nodos" ∷ "📸  Snapshots" ∷ "📋  Eventos" ∷ "📅  Políticas" ∷ "❌  Salir" ∷ []

module _ {I T : Type 0} (style : Styles I T) where
  unfoldable pub header : String
  header = style.title "snapah pow" ++ ("  " ++ (style.bar "▬▬▬" ++ "\n"))

  unfoldable pub view_login : Model I T → Option String
  view_login m = do
    user ← input_at 0 m.inputs
    pass ← input_at 1 m.inputs
    some (
        style.box (
          "\n  "
          ++ (style.muted "Usuario"
              ++ ("\n  "
                  ++ (style.view_input user
                      ++ ("\n\n  "
                          ++ (style.muted "Contraseña"
                              ++ ("\n  "
                                  ++ (style.view_input pass
                                      ++ ("\n\n  "
                                          ++ (style.muted
                                                "Tab/↓ cambiar campo  ·  Enter iniciar sesión  ·  Esc salir"
                                              ++ "\n")))))))))))

  -- the loop over the items; `i` is the index of the first
  menu_lines : ℕ → ℕ → List String → String
  menu_lines i cursor [] = ""
  menu_lines i cursor (item ∷ items) =
      let rest = menu_lines (i + 1) cursor items in
      if nat_eq i cursor
      then "  " ++ (style.selected ("▶ " ++ item) ++ ("\n" ++ rest))
      else "    " ++ (style.muted item ++ ("\n" ++ rest))

  unfoldable pub view_menu : Model I T → String
  unfolding menu_lines
  view_menu m = style.box (
      "\n  "
      ++ (style.muted "Conectado como "
          ++ (style.selected m.user
              ++ (" ("
                  ++ (m.role
                      ++ (")\n\n"
                          ++ (menu_lines 0 m.cursor menu_items
                              ++ ("\n  "
                                  ++ (style.muted "↑/↓ navegar  ·  Enter seleccionar  ·  Esc salir"
                                      ++ "\n")))))))))

  unfoldable pub view_table : String → T → String
  view_table title t =
      style.title ("  " ++ title)
      ++ ("\n"
          ++ (style.view_table t
              ++ ("\n" ++ (style.muted "  ↑/↓ navegar  ·  Esc volver al menú" ++ "\n"))))

  -- the `switch` on the screen
  unfoldable pub body : Screen → Model I T → Option String
  body screen_login m = view_login m
  body screen_menu m = some (view_menu m)
  body screen_nodes m = some (view_table "Nodos" m.nodes_table)
  body screen_snapshots m = some (view_table "Snapshots" m.snapshots_table)
  body screen_events m = some (view_table "Eventos" m.events_table)
  body screen_policies m = some (view_table "Políticas" m.policies_table)

  unfoldable pub footer : Model I T → String
  footer m =
      if not (is_empty m.msg)
      then "\n" ++ style.success ("  ✓ " ++ m.msg)
      else if not (is_empty m.err)
      then "\n" ++ style.error ("  ✗ " ++ m.err)
      else ""

  unfoldable pub view : Model I T → Option String
  unfolding body
  view m =
      if m.loading
      then some (header ++ (style.muted "  cargando..." ++ "\n"))
      else Option.map (λ b. header ++ (b ++ (footer m ++ "\n"))) (body m.screen m)
