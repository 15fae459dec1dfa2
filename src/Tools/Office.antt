-- ===== src/Tools/Office.antt =====
-- app/tools/office.py: the tools for mails and calendar events, which send nothing yet.
use ochestrate.Base.{true, [], ◌∷◌}
use ochestrate.Text.{text_eq, codes}
use ochestrate.Dict.{lookup}
use ochestrate.Schemas.{Value, Params}
use ochestrate.Tools.Hub.{Tool, ok}
use ochestrate.Tools.Values.{given_or}

-- `SendEmailTool.run`
unfoldable pub send_email_output : Params → Params
send_email_output params =
    (codes "status", Value.str (codes "sent"))
    ∷ (codes "to", given_or (Value.str []) (lookup (codes "to") params))
    ∷ (codes "subject", given_or (Value.str []) (lookup (codes "subject") params))
    ∷ (codes "body", given_or (Value.str []) (lookup (codes "body") params))
    ∷ []

-- `CreateCalendarEventTool.run`
unfoldable pub calendar_output : Params → Params
calendar_output params =
    (codes "status", Value.str (codes "created"))
    ∷ (codes "title", given_or (Value.str (codes "Untitled")) (lookup (codes "title") params))
    ∷ (codes "when", given_or (Value.str (codes "unspecified")) (lookup (codes "when") params))
    ∷ []

module _ {W : Type 0} where
  abbrev pub send_email_tool : Tool W
  send_email_tool = record {
    name = codes "send_email";
    description = codes "Send an email via enterprise email gateway.";
    required_roles = codes "employee" ∷ codes "manager" ∷ codes "admin" ∷ [];
    idempotent = true;
    run = λ params w. (ok (send_email_output params), w);
  }

  abbrev pub create_calendar_event_tool : Tool W
  create_calendar_event_tool = record {
    name = codes "create_calendar_event";
    description = codes "Create a calendar event via enterprise calendar gateway.";
    required_roles = codes "employee" ∷ codes "manager" ∷ codes "admin" ∷ [];
    idempotent = true;
    run = λ params w. (ok (calendar_output params), w);
  }
