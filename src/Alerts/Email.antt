-- ===== src/Alerts/Email.antt =====
-- `emailBody` of internal/alerts/alerts.go: the lines of the page, between the values put in.
use btrfs_snapah_pow.Base.{ℕ, String, ◌++◌, List, [], ◌∷◌}
use btrfs_snapah_pow.Alerts.Message.{Alert, level_color, shown_time}

concat : List String → String
concat [] = ""
concat (s ∷ ss) = s ++ concat ss

abbrev page_open : List String
page_open =
    "\n" ∷ "<!DOCTYPE html>\n" ∷ "<html>\n"
    ∷ "<body style=\"font-family:monospace;background:#0d0d1a;color:#e8e8f0;padding:32px;\">\n"
    ∷ "  <div style=\"max-width:560px;margin:0 auto;\">\n" ∷ "    <h2 style=\"color:" ∷ []

abbrev title_open : List String
title_open = ";margin-bottom:8px;\">" ∷ []

abbrev date_open : List String
date_open =
    "</h2>\n" ∷ "    <p style=\"color:#7878a0;font-size:12px;margin-bottom:24px;\">snapah pow · "
    ∷ []

abbrev message_open : List String
message_open =
    "</p>\n"
    ∷ "    <div style=\"background:#1a1a35;border:1px solid #2a2a4a;border-radius:8px;padding:20px;\">\n"
    ∷ "      <p style=\"margin:0 0 12px 0;\">" ∷ []

abbrev level_open : List String
level_open =
    "</p>\n" ∷ "      <hr style=\"border:none;border-top:1px solid #2a2a4a;margin:16px 0;\">\n"
    ∷ "      <p style=\"color:#7878a0;font-size:12px;margin:0;\">\n"
    ∷ "        Nivel: <b style=\"color:" ∷ []

abbrev level_text : List String
level_text = "\">" ∷ []

abbrev node_open : List String
node_open = "</b> &nbsp;·&nbsp;\n" ∷ "        Nodo: <code>" ∷ []

abbrev time_open : List String
time_open = "</code> &nbsp;·&nbsp;\n" ∷ "        Hora: " ∷ []

abbrev page_close : List String
page_close =
    "\n" ∷ "      </p>\n" ∷ "    </div>\n"
    ∷ "    <div style=\"margin-top:24px;display:flex;gap:4px;\">\n"
    ∷ "      <div style=\"height:4px;flex:1;background:#e8360a;border-radius:2px;\"></div>\n"
    ∷ "      <div style=\"height:4px;flex:1;background:#f5c800;border-radius:2px;\"></div>\n"
    ∷ "      <div style=\"height:4px;flex:1;background:#22a64a;border-radius:2px;\"></div>\n"
    ∷ "    </div>\n" ∷ "  </div>\n" ∷ "</body>\n" ∷ "</html>" ∷ []

unfoldable pub email_body : (String → ℕ → String) → Alert → String
unfolding concat
email_body format a =
    let color = level_color a.level in
    concat page_open
    ++ (color
        ++ (concat title_open
            ++ (a.title
                ++ (concat date_open
                    ++ ((shown_time format "02/01/2006 15:04:05" a.time)
                        ++ (concat message_open
                            ++ (a.message
                                ++ (concat level_open
                                    ++ (color
                                        ++ (concat level_text
                                            ++ (a.level
                                                ++ (concat node_open
                                                    ++ (a.node_id
                                                        ++ (concat time_open
                                                            ++ ((shown_time format
                                                            "02/01/2006 15:04:05" a.time)
                                                            ++ (concat page_close))))))))))))))))
