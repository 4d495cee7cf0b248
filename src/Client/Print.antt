-- ===== src/Client/Print.antt =====
-- `printSubmit`, `printGet` and `printHelp` of sources/client/application.cpp, as the bytes that they
-- write to the standard output. `%s` of `c_str()` stops at a NUL in the text.
use inter_process_communicat.Base.{
  ℕ, Bool, true, false, Option, none, some, [], ◌++◌, if◌then◌else◌,
}
use inter_process_communicat.Base.Text.{codes, decimal, decimal_ℤ}
use inter_process_communicat.Protocol.{
  Bytes, Status, st_not_finished, Result, value_not_set, int_result, position, str_result,
  SubmitResponse, GetResponse,
}
use inter_process_communicat.Errors.{ipc_message}
use inter_process_communicat.Client.Scan.{c_string}

unfoldable pub result_line : Result → Bytes → Bytes
result_line (int_result v) unset = codes "Result: Int=" ++ decimal_ℤ v ++ codes "\n"
result_line (position v) unset = codes "Result: Pos=" ++ decimal_ℤ v ++ codes "\n"
result_line (str_result t) unset = codes "Result: Str=" ++ c_string t ++ codes "\n"
result_line value_not_set unset = unset

unfoldable pub ticket_line : Option ℕ → Bytes
ticket_line none = []
ticket_line (some n) = codes "ticket=" ++ decimal n ++ codes "\n"

unfoldable pub submit_result : Option Result → Bytes
submit_result none = []
submit_result (some value) = result_line value (codes "No result set\n")

unfoldable pub print_submit : SubmitResponse → Bytes
print_submit response =
    ipc_message response.status ++ (ticket_line response.ticket ++ submit_result response.result)

unfoldable pub is_not_finished : Status → Bool
is_not_finished st_not_finished = true
is_not_finished status = false

unfoldable pub get_result_text : Status → Option Result → Bytes
get_result_text status (some value) = result_line value []
get_result_text status none =
    if is_not_finished status then codes "Result: NOT FINISHED\n" else codes "No result payload\n"

unfoldable pub print_get : GetResponse → Bytes
print_get response = ipc_message response.status ++ get_result_text response.status response.result

pub print_help : Bytes
print_help =
    codes "Commands:\n"
    ++ codes "  block/non-block add a b        \n"
    ++ codes "  block/non-block sub a b        \n"
    ++ codes "  block/non-block mult a b       \n"
    ++ codes "  block/non-block div a b        \n"
    ++ codes "  block/non-block concat s1 s2   \n"
    ++ codes "  block/non-block find hay needle\n"
    ++ codes "  get <ticket> [nowait | wait <ms>]  (retrieve result for non-blocking ticket)\n"
    ++ codes "  list                               (list pending tickets)\n"
    ++ codes "  quit | exit\n"
