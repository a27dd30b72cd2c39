-- ===== src/Plans/Tables.antt =====
-- SERVICE_ORDER and OPERATION_TOOLS of app/runs/planner.py.
use google_connector_app.Prelude.{
  String, Bool, false, ◌&&◌, Option, none, some, List, [], ◌∷◌, find, contains, str_eq,
}

-- The keys of SERVICE_ORDER.
abbrev services : List String
services =
    "contacts" ∷ "composition" ∷ "gmail" ∷ "drive" ∷ "docs" ∷ "sheets" ∷ "tasks" ∷ "chat"
    ∷ "calendar" ∷ "meet" ∷ "general" ∷ []

-- `service in SERVICE_ORDER`
unfoldable pub is_known_service : Option String → Bool
is_known_service none = false
is_known_service (some s) = contains services s

pub record OperationTools : Type 0 where
  pub service : String
  pub operation : String
  pub tools : List String

abbrev entry : String → String → List String → OperationTools
entry s o ts = record { service = s; operation = o; tools = ts }

abbrev operation_table : List OperationTools
operation_table =
    entry "composition" "compose" []
    ∷ entry "gmail" "message_count" ("count_gmail_messages" ∷ [])
    ∷ entry "gmail" "sender_count" ("count_gmail_senders" ∷ [])
    ∷ entry "gmail" "recent_senders" ("list_recent_gmail_senders" ∷ [])
    ∷ entry "gmail" "search" ("search_gmail" ∷ "get_gmail_message" ∷ "list_gmail_threads" ∷ [])
    ∷ entry "gmail" "send" ("send_gmail" ∷ [])
    ∷ entry "gmail" "reply" ("get_gmail_message" ∷ "reply_gmail" ∷ [])
    ∷ entry "gmail" "label" ("get_gmail_message" ∷ "label_gmail" ∷ [])
    ∷ entry "gmail" "trash" ("get_gmail_message" ∷ "trash_gmail" ∷ [])
    ∷ entry "calendar" "create"
        ("check_calendar_availability" ∷ "create_calendar_event" ∷ "get_calendar_event" ∷ [])
    ∷ entry "calendar" "update" ("get_calendar_event" ∷ "update_calendar_event" ∷ [])
    ∷ entry "calendar" "delete" ("get_calendar_event" ∷ "delete_calendar_event" ∷ [])
    ∷ entry "calendar" "availability" ("check_calendar_availability" ∷ [])
    ∷ entry "calendar" "list" ("list_calendar_events" ∷ "get_calendar_event" ∷ [])
    ∷ entry "drive" "share" ("get_drive_file" ∷ "share_drive_file" ∷ [])
    ∷ entry "drive" "trash" ("get_drive_file" ∷ "trash_drive_file" ∷ [])
    ∷ entry "drive" "move" ("get_drive_file" ∷ "move_drive_file" ∷ [])
    ∷ entry "drive" "upload" ("upload_drive_file" ∷ "get_drive_file" ∷ [])
    ∷ entry "drive" "search" ("search_drive" ∷ "get_drive_file" ∷ [])
    ∷ entry "drive" "get" ("search_drive" ∷ "get_drive_file" ∷ [])
    ∷ entry "docs" "create" ("create_google_doc" ∷ "read_google_doc" ∷ [])
    ∷ entry "docs" "append" ("read_google_doc" ∷ "append_to_google_doc" ∷ [])
    ∷ entry "docs" "read" ("read_google_doc" ∷ [])
    ∷ entry "sheets" "create_and_write" (
        "create_google_sheet" ∷ "write_google_sheet" ∷ "append_to_google_sheet"
        ∷ "read_google_sheet" ∷ [])
    ∷ entry "sheets" "write" ("write_google_sheet" ∷ "read_google_sheet" ∷ [])
    ∷ entry "sheets" "append" ("append_to_google_sheet" ∷ "read_google_sheet" ∷ [])
    ∷ entry "sheets" "read" ("read_google_sheet" ∷ [])
    ∷ entry "tasks" "create" ("create_task" ∷ "list_tasks" ∷ [])
    ∷ entry "tasks" "complete" ("list_tasks" ∷ "complete_task" ∷ [])
    ∷ entry "tasks" "list" ("list_tasks" ∷ [])
    ∷ entry "chat" "send"
        ("list_chat_spaces" ∷ "resolve_chat_destination" ∷ "send_chat_message" ∷ [])
    ∷ entry "chat" "list_spaces" ("list_chat_spaces" ∷ [])
    ∷ entry "contacts" "search" ("search_contacts" ∷ "get_contact" ∷ [])
    ∷ entry "contacts" "get" ("get_contact" ∷ [])
    ∷ entry "meet" "create" ("create_meet_space" ∷ "get_meet_space" ∷ [])
    ∷ entry "meet" "participants" ("list_meet_participants" ∷ [])
    ∷ entry "meet" "conferences" ("list_meet_conferences" ∷ "get_meet_space" ∷ [])
    ∷ entry "meet" "get" ("get_meet_space" ∷ [])
    ∷ []

abbrev is_entry : String → String → OperationTools → Bool
is_entry s o e = str_eq e.service s && str_eq e.operation o

abbrev tools_of : Option OperationTools → Option (List String)
tools_of none = none
tools_of (some e) = some e.tools

-- `OPERATION_TOOLS.get((service, operation))`
unfoldable pub operation_tools : Option String → String → Option (List String)
operation_tools none operation = none
operation_tools (some service) operation =
    tools_of (find (is_entry service operation) operation_table)
